-- ===== src/Processor/Service/Atomicity.antt =====
-- The effect of `ProcessTransaction` on PostgreSQL: the whole transaction or nothing, whatever the
-- databases answer.
use innoscripta_banking_ledg.Base.{
  ℕ, IsInt64, ◌≡◌, ◌⊎◌, inl, inr, refl, sym, ◌∙◌, subst, true, false, Bool, List, All, arith,
}
use innoscripta_banking_ledg.Domain.Shared.{TransactionRequest}
use innoscripta_banking_ledg.Domain.Result.{Result, ok, err}
use innoscripta_banking_ledg.Domain.Account.{Account}
use innoscripta_banking_ledg.Domain.Outbox.{Json, Message}
use innoscripta_banking_ledg.Platform.Reply.{Reply, done, fault}
use innoscripta_banking_ledg.Platform.Schema.{accounts_schema}
use innoscripta_banking_ledg.Platform.Postgres.{Postgres, IsPostgres, TxTables, Began, Committed}
use innoscripta_banking_ledg.Platform.Collection.{Collection}
use innoscripta_banking_ledg.Processor.Validator.{is_known, validate}
use innoscripta_banking_ledg.Processor.AccountManager.{lock_and_update_account}
use innoscripta_banking_ledg.Processor.AccountManager.Posting.{Posting}
use innoscripta_banking_ledg.Processor.AccountManager.Outcome.{
  Outcome, lock_and_update_account-Outcome,
}
use innoscripta_banking_ledg.Processor.OutboxManager.{create_outbox_entry}
use innoscripta_banking_ledg.Processor.OutboxManager.Queueing.{
  Queued, QueuedIf, create_outbox_entry_outcome,
}
use innoscripta_banking_ledg.Platform.World.{World}
use innoscripta_banking_ledg.Processor.Service.{
  finish, after_outbox, after_update, after_begin, after_check, after_validation,
  process_transaction,
}

pub validate-is_known :
    (request : TransactionRequest) → validate request ≡ ok tt → is_known request.type ≡ true
unfolding validate
validate-is_known request h = ground arith

module _ {B : Type 0} (json : Json B) (request : TransactionRequest) (now : ℕ) where
  -- The account has been posted and the message queued.
  abbrev pub Accepted : List Account → List (Message B) → List Account → List (Message B) → Type 0
  Accepted rows queue rows' queue' =
      Posting request now rows rows' × Queued json request now queue queue'

  -- The tables of the pool are what they were, or hold the whole transaction.
  abbrev pub AllOrNothing :
      {P X : Type 0} {pg : Postgres B P X}
      → IsPostgres pg
      → List Account
      → List (Message B)
      → P
      → Type 0
  AllOrNothing i rows queue p =
      ((i.pool.accounts p ≡ rows) × (i.pool.messages p ≡ queue))
      ⊎ Accepted rows queue (i.pool.accounts p) (i.pool.messages p)

module _ {B P X M : Type 0} (pg : Postgres B P X) (i : IsPostgres pg) (c : Collection M)
    (json : Json B) (request : TransactionRequest) (now : ℕ) where
  module _ (rows : List Account) (queue : List (Message B)) where
    abbrev pub Untouched : P → Type 0
    Untouched p = (i.pool.accounts p ≡ rows) × (i.pool.messages p ≡ queue)

    abbrev Prepared : X → Type 0
    Prepared x = Accepted json request now rows queue (i.tx.accounts x) (i.tx.messages x)

    pub Untouched-rollback : (x : X) (p : P) → Untouched p → Untouched (pg.rollback x p).1
    Untouched-rollback x p (a, m) = ((i.rollback_lem x p).0 ∙ a, (i.rollback_lem x p).1 ∙ m)

    pub Accepted-of_shown :
        (x : X) (p : P)
        → Accepted json request now rows queue (i.tx.accounts x) (i.tx.messages x)
        → TxTables i.pool i.tx x p
        → Accepted json request now rows queue (i.pool.accounts p) (i.pool.messages p)
    Accepted-of_shown x p (posting, queued) (a, m) = (
      subst (Posting request now rows) (sym a) posting,
      subst (Queued json request now queue) (sym m) queued,
    )

    finish_effect :
        (p : P) (x : X) (m : M) (r : Reply (Unit {0})) (p' : P)
        → Untouched p
        → Prepared x
        → Committed i.pool i.tx x p (r, p')
        → AllOrNothing json request now i rows queue (finish pg c json r x p' m).1.pg
    unfolding finish
    finish_effect p x m (done _) p' u ready shown = inr (Accepted-of_shown x p' ready shown)
    finish_effect p x m fault p' (a, q) ready (inl (a', q')) =
        inl (Untouched-rollback x p' (a' ∙ a, q' ∙ q))
    finish_effect p x m fault p' u ready (inr (a, q)) =
        inr (Accepted-of_shown x _ ready ((i.rollback_lem x p').0 ∙ a, (i.rollback_lem x p').1 ∙ q))

    after_outbox_effect :
        (p : P) (x : X) (m : M) (r : Result (Unit {0}))
        → Untouched p
        → Posting request now rows (i.tx.accounts x)
        → QueuedIf json request now queue (i.tx.messages x) r
        → AllOrNothing json request now i rows queue (after_outbox pg c json r x p m).1.pg
    unfolding after_outbox
    after_outbox_effect p x m (err e) u posting _ = inl (Untouched-rollback x p u)
    after_outbox_effect p x m (ok _) u posting queued =
        finish_effect p x m _ _ u (posting, queued) (i.commit_lem x p)

    after_update_effect :
        (p : P) (x : X) (m : M) (r : Result Account)
        → Untouched p
        → Outcome request now rows (i.tx.accounts x) r
        → i.tx.messages x ≡ queue
        → AllOrNothing json request now i rows queue
            (after_update pg c json request now r x p m).1.pg
    unfolding after_update
    after_update_effect p x m (err e) u _ _ = inl (Untouched-rollback x p u)
    after_update_effect p x m (ok _) u posting same =
        let (queued, kept) = create_outbox_entry_outcome pg.tx i.tx json request now x in
        after_outbox_effect p _ m _ u (subst (Posting request now rows) (sym kept) posting) (
          subst
            (λ q.
              QueuedIf json request now q
                (i.tx.messages (create_outbox_entry pg.tx json request now x).1)
                (create_outbox_entry pg.tx json request now x).0)
            same queued)

    module _ (known : is_known request.type ≡ true) (amount : IsInt64 request.amount)
        (valid : accounts_schema rows ≡ true) (range : All (λ row. IsInt64 row.balance) rows) where
      pub update-Outcome :
          (x : X)
          → i.tx.accounts x ≡ rows
          → i.tx.messages x ≡ queue
          → let (r, x') = lock_and_update_account pg.tx request now x in
            Outcome request now rows (i.tx.accounts x') r × (i.tx.messages x' ≡ queue)
      update-Outcome x a q =
          let (outcome, kept) =
            lock_and_update_account-Outcome pg.tx i.tx request now known amount x
              (subst (λ l. accounts_schema l ≡ true) (sym a) valid)
              (subst (All (λ row. IsInt64 row.balance)) (sym a) range) in
          (
            subst
                (λ l.
                  Outcome request now l
                    (i.tx.accounts (lock_and_update_account pg.tx request now x).1)
                    (lock_and_update_account pg.tx request now x).0)
                a outcome,
            kept ∙ q,
          )

      after_begin_effect :
          (p : P) (m : M) (r : Reply X) (p' : P)
          → Untouched p
          → Began i.pool i.tx p (r, p')
          → AllOrNothing json request now i rows queue
              (after_begin pg c json request now r p' m).1.pg
      unfolding after_begin
      after_begin_effect p m fault p' (a, q) (a', q') = inl (a' ∙ a, q' ∙ q)
      after_begin_effect p m (done x) p' (a, q) ((a', q'), (sa, sq)) =
          let (outcome, kept) = update-Outcome x (sym sa ∙ a) (sym sq ∙ q) in
          after_update_effect p' _ m _ (a' ∙ a, q' ∙ q) outcome kept

      pub after_check_effect :
          (p : P) (m : M) (r : Result Bool)
          → Untouched p
          → AllOrNothing json request now i rows queue
              (after_check pg c json request now r p m).1.pg
      unfolding after_check
      after_check_effect p m (err e) u = inl u
      after_check_effect p m (ok true) u = inl u
      after_check_effect p m (ok false) u = after_begin_effect p m _ _ u (i.begin_lem p)

  after_validation_effect :
      (w : World P M)
      → IsInt64 request.amount
      → accounts_schema (i.pool.accounts w.pg) ≡ true
      → All (λ row. IsInt64 row.balance) (i.pool.accounts w.pg)
      → (r : Result (Unit {0})) → (r ≡ ok tt → is_known request.type ≡ true)
      → AllOrNothing json request now i
          (i.pool.accounts w.pg)
          (i.pool.messages w.pg)
          (after_validation pg c json request now r w).1.pg
  unfolding after_validation
  after_validation_effect w amount valid range (err e) known = inl (refl, refl)
  after_validation_effect w amount valid range (ok _) known =
      after_check_effect _ _ (known refl) amount valid range w.pg _ _ (refl, refl)

  -- Whatever the databases answer, the accounts and the outbox are afterwards what they were, or
  -- they hold the request as a whole: its amount has moved the balance of its account, which allowed
  -- that, exactly and without overflow, and its message stands at the end of the outbox. This holds
  -- from tables that satisfy their constraints and hold 64-bit balances, for a 64-bit amount.
  pub process_transaction_atomic :
      (w : World P M)
      → IsInt64 request.amount
      → accounts_schema (i.pool.accounts w.pg) ≡ true
      → All (λ row. IsInt64 row.balance) (i.pool.accounts w.pg)
      → AllOrNothing json request now i
          (i.pool.accounts w.pg)
          (i.pool.messages w.pg)
          (process_transaction pg c json request now w).1.pg
  unfolding process_transaction
  process_transaction_atomic w amount valid range =
      after_validation_effect w amount valid range (validate request) (validate-is_known request)
