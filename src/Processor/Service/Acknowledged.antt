-- ===== src/Processor/Service/Acknowledged.antt =====
-- What has become of a request that is acknowledged: `ProcessTransaction` has returned no error, and
-- Kafka does not deliver it again.
use innoscripta_banking_ledg.Base.{
  ℕ, IsInt64, ◌≡◌, inl, inr, refl, sym, ◌∙◌, subst, true, false, Bool, String, Option, some, none,
  List, All,
}
use innoscripta_banking_ledg.Domain.Shared.{TransactionRequest}
use innoscripta_banking_ledg.Domain.Error.{Error}
use innoscripta_banking_ledg.Domain.Result.{Result, ok, err}
use innoscripta_banking_ledg.Domain.Account.{Account}
use innoscripta_banking_ledg.Domain.Ledger.{Entry}
use innoscripta_banking_ledg.Domain.Outbox.{Json, Message}
use innoscripta_banking_ledg.Platform.Reply.{Reply, done, fault}
use innoscripta_banking_ledg.Platform.Schema.{accounts_schema}
use innoscripta_banking_ledg.Platform.Postgres.{Postgres, IsPostgres, Began, Committed}
use innoscripta_banking_ledg.Platform.Collection.{Collection, IsCollection}
use innoscripta_banking_ledg.Platform.World.{World}
use innoscripta_banking_ledg.Data.LedgerRepository.Writes.{Read, get_by_transaction_id_reads}
use innoscripta_banking_ledg.Processor.Validator.{
  is_known, validate, skip_or_not, check_idempotency,
}
use innoscripta_banking_ledg.Processor.AccountManager.Outcome.{Outcome}
use innoscripta_banking_ledg.Processor.AccountManager.Posting.{Posting}
use innoscripta_banking_ledg.Processor.OutboxManager.{create_outbox_entry}
use innoscripta_banking_ledg.Processor.OutboxManager.Queueing.{
  QueuedIf, create_outbox_entry_outcome,
}
use innoscripta_banking_ledg.Processor.Service.{
  settle, finish, after_outbox, after_update, after_begin, after_check, after_validation,
  validation_reason, business_reason, process_transaction,
}
use innoscripta_banking_ledg.Processor.Service.Atomicity.{
  Untouched, Accepted-of_shown, Untouched-rollback, Accepted, update-Outcome, validate-is_known,
}
use innoscripta_banking_ledg.Processor.Service.Verdict.{
  Cause, Cause-of_Outcome, Cause-of_validate, terminal_of_skip, Settled, SettledAt,
}

module _ {B P X M : Type 0} (pg : Postgres B P X) (i : IsPostgres pg) (c : Collection M)
    (j : IsCollection c) (json : Json B) (request : TransactionRequest) (now : ℕ)
    (rows : List Account) (queue : List (Message B)) (entries : List Entry) where
  finish_settled :
      (x : X) (p : P) (m : M) (r : Reply (Unit {0})) (p' : P)
      → Accepted json request now rows queue (i.tx.accounts x) (i.tx.messages x)
      → Committed i.pool i.tx x p (r, p')
      → SettledAt pg i c j json request now rows queue entries (finish pg c json r x p' m)
  unfolding finish
  finish_settled x p m (done _) p' ready shown =
      inr (inr (Accepted-of_shown pg i c json request now rows queue x p' ready shown))
  finish_settled x p m fault p' ready shown = tt

  after_outbox_settled :
      (x : X) (p : P) (m : M) (r : Result (Unit {0}))
      → Posting request now rows (i.tx.accounts x)
      → QueuedIf json request now queue (i.tx.messages x) r
      → SettledAt pg i c j json request now rows queue entries (after_outbox pg c json r x p m)
  unfolding after_outbox
  after_outbox_settled x p m (err e) posting _ = tt
  after_outbox_settled x p m (ok _) posting queued =
      finish_settled x p m _ _ (posting, queued) (i.commit_lem x p)

  settle-Settled :
      (e : Error) (o : Option String) (x : X) (p : P) (m : M)
      → Untouched pg i c json request now rows queue p
      → j.entries m ≡ entries
      → ((reason : String) → o ≡ some reason → Cause request rows reason)
      → let (r, m') = settle pg c json request now e o m in
        Settled pg i c j json request now rows queue entries r
          (record { pg = (pg.rollback x p).1; mongo = m' })
  unfolding settle
  settle-Settled e none x p m u same cause = tt
  settle-Settled e (some reason) x p m u same cause = inl (
    Untouched-rollback pg i c json request now rows queue x p u,
    (reason, cause reason refl, (m, same, refl)),
  )

  after_update_settled :
      (x : X) (p : P) (m : M) (r : Result Account)
      → is_known request.type ≡ true
      → Untouched pg i c json request now rows queue p
      → j.entries m ≡ entries
      → Outcome request now rows (i.tx.accounts x) r
      → i.tx.messages x ≡ queue
      → SettledAt pg i c j json request now rows queue entries
          (after_update pg c json request now r x p m)
  unfolding after_update
  after_update_settled x p m (err e) known u same outcome _ =
      settle-Settled e (business_reason request e) x p m u same
        (λ reason h. Cause-of_Outcome request now rows (i.tx.accounts x) e reason known outcome h)
  after_update_settled x p m (ok _) known u same posting kept =
      let (queued, rows_kept) = create_outbox_entry_outcome pg.tx i.tx json request now x in
      after_outbox_settled _ p m _ (subst (Posting request now rows) (sym rows_kept) posting) (
        subst
          (λ q.
            QueuedIf json request now q
              (i.tx.messages (create_outbox_entry pg.tx json request now x).1)
              (create_outbox_entry pg.tx json request now x).0)
          kept queued)

  module _ (known : is_known request.type ≡ true) (amount : IsInt64 request.amount)
      (valid : accounts_schema rows ≡ true) (range : All (λ row. IsInt64 row.balance) rows) where
    after_begin_settled :
        (p : P) (m : M) (r : Reply X) (p' : P)
        → Untouched pg i c json request now rows queue p
        → j.entries m ≡ entries
        → Began i.pool i.tx p (r, p')
        → SettledAt pg i c j json request now rows queue entries
            (after_begin pg c json request now r p' m)
    unfolding after_begin
    after_begin_settled p m fault p' u same _ = tt
    after_begin_settled p m (done x) p' (a, q) same ((a', q'), (sa, sq)) =
        let (outcome, kept) =
          update-Outcome pg i c json request now rows queue known amount valid range x (sym sa ∙ a)
            (sym sq ∙ q) in
        after_update_settled _ p' m _ known (a' ∙ a, q' ∙ q) same outcome kept

    after_check_settled :
        (p : P) (m : M) (r : Result Entry) (skip : Result Bool)
        → Untouched pg i c json request now rows queue p
        → j.entries m ≡ entries
        → Read request.transaction_id entries r
        → skip_or_not r ≡ skip
        → SettledAt pg i c j json request now rows queue entries
            (after_check pg c json request now skip p m)
    unfolding after_check
    after_check_settled p m r (err e) u same read h = tt
    after_check_settled p m r (ok true) u same read h =
        inr (inl (u, same, terminal_of_skip entries request.transaction_id r read h))
    after_check_settled p m r (ok false) u same read h =
        after_begin_settled p m _ _ u same (i.begin_lem p)

module _ {B P X M : Type 0} (pg : Postgres B P X) (i : IsPostgres pg) (c : Collection M)
    (j : IsCollection c) (json : Json B) (request : TransactionRequest) (now : ℕ) where
  -- What an acknowledged request has come to, by what was in the databases before.
  abbrev pub SettledFrom : World P M → Result (Unit {0}) → World P M → Type 0
  SettledFrom w =
      Settled pg i c j json request now (i.pool.accounts w.pg) (i.pool.messages w.pg)
        (j.entries w.mongo)

  after_validation_settled :
      (w : World P M)
      → IsInt64 request.amount
      → accounts_schema (i.pool.accounts w.pg) ≡ true
      → All (λ row. IsInt64 row.balance) (i.pool.accounts w.pg)
      → (v : Result (Unit {0})) → validate request ≡ v
      → let (r, w') = after_validation pg c json request now v w in SettledFrom w r w'
  unfolding after_validation check_idempotency
  after_validation_settled w amount valid range (err e) h =
      inl (
        (refl, refl),
        (validation_reason e, Cause-of_validate request _ e h, (w.mongo, refl, refl)),
      )
  after_validation_settled w amount valid range (ok _) h =
      let (read, same) = get_by_transaction_id_reads c j request.transaction_id w.mongo in
      after_check_settled pg i c j json request now _ _ _ (validate-is_known request h) amount valid
        range w.pg _ _ _ (refl, refl) same read refl

  pub process_transaction_settled :
      (w : World P M)
      → IsInt64 request.amount
      → accounts_schema (i.pool.accounts w.pg) ≡ true
      → All (λ row. IsInt64 row.balance) (i.pool.accounts w.pg)
      → let (r, w') = process_transaction pg c json request now w in SettledFrom w r w'
  unfolding process_transaction
  process_transaction_settled w amount valid range =
      after_validation_settled w amount valid range (validate request) refl
