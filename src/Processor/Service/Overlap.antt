-- ===== src/Processor/Service/Overlap.antt =====
-- Workers and the poller of the transaction processor that overlap: what comes between two calls of the
-- databases is anything that another one of them does.
use innoscripta_banking_ledg.Base.{
  ℕ, ℤ, IsInt64, ◌≡◌, inl, inr, refl, ap, ◌∙◌, Bool, List, ◌==◌, arith,
}
use innoscripta_banking_ledg.Domain.Shared.{TransactionRequest, OutboxStatus}
use innoscripta_banking_ledg.Domain.Result.{Result, ok, err}
use innoscripta_banking_ledg.Domain.Outbox.{Json, IsJson, Message}
use innoscripta_banking_ledg.Domain.Outbox.Content.{content, contents, contents-update_all}
use innoscripta_banking_ledg.Platform.Postgres.{Postgres, IsPostgres}
use innoscripta_banking_ledg.Platform.Collection.{Collection}
use innoscripta_banking_ledg.Platform.World.{World}
use innoscripta_banking_ledg.Data.OutboxRepository.{
  is_pending, with_status, with_attempt, get_pending, update_status, increment_attempts,
}
use innoscripta_banking_ledg.Data.OutboxRepository.Writes.{
  Stamped, Stamped-either, update_status_stamps, increment_attempts_stamps,
}
use innoscripta_banking_ledg.Processor.Validator.{validate}
use innoscripta_banking_ledg.Processor.Journal.{balance_of, journal_of, journal_of-contents}
use innoscripta_banking_ledg.Processor.Service.{after_check, after_validation, process_transaction}
use innoscripta_banking_ledg.Processor.Service.Atomicity.{validate-is_known, after_check_effect}
use innoscripta_banking_ledg.Processor.Service.Validity.{IsValid, AllOrNothing-IsValid}
use innoscripta_banking_ledg.Processor.Service.Reconciled.{Reconciled, AllOrNothing-Reconciled}
use innoscripta_banking_ledg.Processor.System.Reconciliation.{IsValid-of_contents, Reconciled-trans}

module _ {B P X M : Type 0} (pg : Postgres B P X) (c : Collection M) (json : Json B) where
  -- What nothing comes between: the transaction of a worker on PostgreSQL, with what it has found out
  -- in the ledger at any time before; a statement of the poller; and any change of the ledger, which
  -- stands for the calls of MongoDB of all of them.
  pub data Move : World P M → World P M → Type 0 where
    transact :
        (r : TransactionRequest) (now : ℕ) (skip : Result Bool) (w : World P M)
        → IsInt64 r.amount
        → validate r ≡ ok tt
        → Move w (after_check pg c json r now skip w.pg w.mongo).1
    look :
        (limit : ℤ) (w : World P M) → Move w (record w { pg = (get_pending pg.pool limit w.pg).1 })
    mark :
        (id : ℕ) (status : OutboxStatus) (now : ℕ) (w : World P M)
        → Move w (record w { pg = (update_status pg.pool id status now w.pg).1 })
    count :
        (id now : ℕ) (w : World P M)
        → Move w (record w { pg = (increment_attempts pg.pool id now w.pg).1 })
    elsewhere : (m : M) (w : World P M) → Move w (record w { mongo = m })

  -- Zero or more moves.
  pub data Moves : World P M → World P M → Type 0 where
    still : (w : World P M) → Moves w w
    more : {w w' w'' : World P M} → Moves w w' → Move w' w'' → Moves w w''

  -- Moves after moves.
  pub Moves-trans : {w w' w'' : World P M} → Moves w w' → Moves w' w'' → Moves w w''
  Moves-trans first (still _) = first
  Moves-trans first (more moves move) = more (Moves-trans first moves) move

  validated-Moves :
      (r : TransactionRequest) (now : ℕ) (w : World P M)
      → IsInt64 r.amount
      → (v : Result (Unit {0})) → validate r ≡ v
      → Moves w (after_validation pg c json r now v w).1
  unfolding after_validation
  validated-Moves r now w amount (err e) h = more (still w) (elsewhere _ w)
  validated-Moves r now w amount (ok _) h =
      more (more (still w) (elsewhere _ w)) (transact r now _ (record w { mongo = _ }) amount h)

  -- A request that nothing comes between is one way for its moves to follow one another.
  pub process_transaction-Moves :
      (r : TransactionRequest) (now : ℕ) (w : World P M)
      → IsInt64 r.amount
      → Moves w (process_transaction pg c json r now w).1
  unfolding process_transaction
  process_transaction-Moves r now w amount = validated-Moves r now w amount (validate r) refl

module _ {B P X M : Type 0} (pg : Postgres B P X) (i : IsPostgres pg) (c : Collection M)
    (json : Json B) (laws : IsJson json) where
  -- What moves keep, seen from their start.
  abbrev pub Kept : World P M → World P M → Type 0
  Kept w w' =
      IsValid (i.pool.accounts w'.pg) (i.pool.messages w'.pg)
      × Reconciled json (i.pool.accounts w.pg) (i.pool.messages w.pg) (i.pool.accounts w'.pg)
          (i.pool.messages w'.pg)

  same_contents-Kept :
      (p p' : P) (m : M)
      → i.pool.accounts p' ≡ i.pool.accounts p
      → contents (i.pool.messages p') ≡ contents (i.pool.messages p)
      → IsValid (i.pool.accounts p) (i.pool.messages p)
      → Kept (record { pg = p; mongo = m }) (record { pg = p'; mongo = m })
  same_contents-Kept p p' m accounts messages v = (
    IsValid-of_contents _ _ _ _ accounts messages v,
    λ id. grind (
      arith,
      ap (balance_of id) accounts,
      journal_of-contents json id (i.pool.messages p),
      ap (journal_of json id) messages,
      journal_of-contents json id (i.pool.messages p'),
    ),
  )

  Stamped-contents :
      (id : ℕ) (f : Message B → Message B) (before after : List (Message B)) (r : Result (Unit {0}))
      → ((m : Message B) → content (f m) ≡ content m)
      → Stamped id f before after r
      → contents after ≡ contents before
  Stamped-contents id f before after r same s = elim (Stamped-either id f before after r s) [
    | inl kept ↦ ap contents kept
    | inr written ↦ ap contents written ∙ contents-update_all (λ row. row.id == id) f same before
  ]

  Move-Kept :
      {w w' : World P M}
      → Move pg c json w w'
      → IsValid (i.pool.accounts w.pg) (i.pool.messages w.pg)
      → Kept w w'
  unfolding get_pending
  Move-Kept (transact r now skip w amount valid) v =
      let effect =
        after_check_effect pg i c json r now _ _ (validate-is_known r valid) amount v.accounts
          v.range w.pg w.mongo skip (refl, refl) in
      (
        AllOrNothing-IsValid pg i json r now _ _ _ v effect,
        AllOrNothing-Reconciled pg i json laws r now _ _ _ effect,
      )
  Move-Kept (look limit w) v =
      let (accounts, messages) =
        i.pool.select_messages_keeps (λ row. is_pending row.status) limit w.pg in
      same_contents-Kept w.pg _ w.mongo accounts (ap contents messages) v
  Move-Kept (mark id status now w) v =
      let (written, accounts) = update_status_stamps pg.pool i.pool id status now w.pg in
      same_contents-Kept w.pg _ w.mongo accounts
        (Stamped-contents id (with_status status now) _ _ _ (λ m. refl) written) v
  Move-Kept (count id now w) v =
      let (written, accounts) = increment_attempts_stamps pg.pool i.pool id now w.pg in
      same_contents-Kept w.pg _ w.mongo accounts
        (Stamped-contents id (with_attempt now) _ _ _ (λ m. refl) written) v
  Move-Kept (elsewhere m w) v = (v, λ id. refl)

  -- However requests and ticks overlap, between two calls of the databases anything that another one
  -- does: from valid tables, whatever the databases answer, and however old or wrong what a worker has
  -- found out in the ledger is by the time its transaction starts, the tables are valid, and of every
  -- account the balance less what the messages of the outbox say of it is what it was at the start.
  -- The transactions on PostgreSQL follow one another.
  pub Moves-Kept :
      {w w' : World P M}
      → Moves pg c json w w'
      → IsValid (i.pool.accounts w.pg) (i.pool.messages w.pg)
      → Kept w w'
  Moves-Kept (still w) v = (v, λ id. refl)
  Moves-Kept (more {w'} moves move) v =
      let (v', r) = Moves-Kept moves v in
      let (v'', r') = Move-Kept move v' in
      (v'', Reconciled-trans json _ (i.pool.accounts w'.pg) _ _ (i.pool.messages w'.pg) _ r r')
