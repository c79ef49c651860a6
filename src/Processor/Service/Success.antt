-- ===== src/Processor/Service/Success.antt =====
-- `ProcessTransaction` over databases that answer: a request that can be carried out is.
use innoscripta_banking_ledg.Base.{
  ℕ, IsInt32, IsInt64, All-mono, find?-update_all, ◌≡◌, refl, sym, ◌∙◌, ap, subst, true, false,
  Bool, none, some, List, find?, ◌==◌, All, arith,
}
use innoscripta_banking_ledg.Domain.Shared.{TransactionRequest}
use innoscripta_banking_ledg.Domain.Error.{Error, errors_is}
use innoscripta_banking_ledg.Domain.Result.{Result, ok, err}
use innoscripta_banking_ledg.Domain.Account.{Account}
use innoscripta_banking_ledg.Domain.Outbox.{Json, Message, message_of}
use innoscripta_banking_ledg.Platform.Reply.{Reply, done, fault}
use innoscripta_banking_ledg.Platform.Schema.{accounts_schema, outbox_schema, FitsColumns}
use innoscripta_banking_ledg.Platform.Postgres.{Postgres, IsPostgres, TxTables, Began, Committed}
use innoscripta_banking_ledg.Platform.Collection.{Collection, IsCollection}
use innoscripta_banking_ledg.Platform.World.{World}
use innoscripta_banking_ledg.Data.LedgerRepository.Entries.{entry_of}
use innoscripta_banking_ledg.Data.LedgerRepository.Answering.{Answers, get_missing}
use innoscripta_banking_ledg.Processor.Validator.{validate, check_idempotency, skip_or_not}
use innoscripta_banking_ledg.Processor.AccountManager.{lock_and_update_account}
use innoscripta_banking_ledg.Processor.AccountManager.Change.{posted_account}
use innoscripta_banking_ledg.Processor.AccountManager.Outcome.{Outcome}
use innoscripta_banking_ledg.Processor.AccountManager.Posting.{Posting}
use innoscripta_banking_ledg.Processor.AccountManager.Success.{
  AccountsAnswer, IsPostable, lock_and_update_account_succeeds,
}
use innoscripta_banking_ledg.Processor.OutboxManager.{ledger_entry_for_outbox, create_outbox_entry}
use innoscripta_banking_ledg.Processor.OutboxManager.Queueing.{
  QueuedIf, create_outbox_entry_outcome, create_outbox_entry_succeeds,
}
use innoscripta_banking_ledg.Processor.Service.Atomicity.{
  Accepted, Accepted-of_shown, update-Outcome,
}
use innoscripta_banking_ledg.Processor.Service.{
  finish, after_outbox, after_update, after_begin, after_check, after_validation,
  process_transaction,
}

-- Transactions begin and commit; a message of a transaction that is not in the outbox can be inserted
-- if its account is in the table of the accounts, its payload is JSON that JSONB takes, and its attempts
-- fit their column; the accounts answer.
pub record TransactionsAnswer {B P X : Type 0} (pg : Postgres B P X) (i : IsPostgres pg)
    : Type 0 where
  pub accounts : AccountsAnswer pg.tx i.tx
  pub begin_answers : (p : P) → (x : X) × ((pg.begin p).0 ≡ done x)
  pub is_jsonb : B → Bool
  pub insert_answers :
      (m : Message B) (x : X) (a : Account)
      → outbox_schema (i.tx.messages x) ≡ true
      → find? (λ row. row.transaction_id == m.transaction_id) (i.tx.messages x) ≡ none
      → find? (λ row. row.id == m.account_id) (i.tx.accounts x) ≡ some a
      → is_jsonb m.payload ≡ true
      → IsInt32 m.attempts
      → (n : ℕ) × ((pg.tx.insert_message m x).0 ≡ done n)
  pub commit_answers : (x : X) (p : P) → (pg.commit x p).0 ≡ done tt

fault_ne_done : {A : Type 0} (a : A) → Path (Reply A) fault (done a) → ⊥
fault_ne_done a e = cc

err_ne_ok : {A : Type 0} (e : Error) (a : A) → Path (Result A) (err e) (ok a) → ⊥
err_ne_ok e a h = cc

module _ {B P X M : Type 0} (pg : Postgres B P X) (i : IsPostgres pg) (c : Collection M)
    (json : Json B) (answers : TransactionsAnswer pg i) (request : TransactionRequest) (now : ℕ)
    (rows : List Account) (queue : List (Message B)) where
  -- No error, and the request has been posted and queued.
  abbrev Posted : Result (Unit {0}) × World P M → Type 0
  Posted (r, w) =
      (r ≡ ok tt)
      × Accepted json request now rows queue (i.pool.accounts w.pg) (i.pool.messages w.pg)

  finish_posts :
      (x : X) (m : M) (r : Reply (Unit {0})) (p : P)
      → Accepted json request now rows queue (i.tx.accounts x) (i.tx.messages x)
      → (r ≡ done tt → TxTables i.pool i.tx x p)
      → r ≡ done tt
      → Posted (finish pg c json r x p m)
  unfolding finish
  finish_posts x m (done _) p ready shown e =
      (refl, Accepted-of_shown pg i c json request now rows queue x p ready (shown refl))
  finish_posts x m fault p ready shown e = absurd (fault_ne_done tt e)

  Committed-shown :
      (x : X) (p p' : P) (r : Reply (Unit {0}))
      → Committed i.pool i.tx x p (r, p')
      → r ≡ done tt
      → TxTables i.pool i.tx x p'
  Committed-shown x p p' (done _) c' e = c'
  Committed-shown x p p' fault c' e = absurd (fault_ne_done tt e)

  outbox_posts :
      (x : X) (p : P) (m : M) (r : Result (Unit {0}))
      → r ≡ ok tt
      → Posting request now rows (i.tx.accounts x)
      → QueuedIf json request now queue (i.tx.messages x) r
      → Posted (after_outbox pg c json r x p m)
  unfolding after_outbox
  outbox_posts x p m (err e) h posting queued = absurd (err_ne_ok e tt h)
  outbox_posts x p m (ok _) h posting queued =
      let answered = answers.commit_answers x p in
      finish_posts x m (pg.commit x p).0 (pg.commit x p).1 (posting, queued)
        (λ e. Committed-shown x p (pg.commit x p).1 (pg.commit x p).0 (i.commit_lem x p) e) answered

  -- What the request needs of the outbox.
  abbrev Insertable : Type 0
  Insertable =
      (outbox_schema queue ≡ true)
      × (find? (λ row. row.transaction_id == request.transaction_id) queue ≡ none)

  queueing_succeeds :
      (payload : B) (x : X)
      → json.marshal (ledger_entry_for_outbox request) ≡ some payload
      → i.tx.messages x ≡ queue
      → Insertable
      → answers.is_jsonb payload ≡ true
      → Posting request now rows (i.tx.accounts x)
      → (create_outbox_entry pg.tx json request now x).0 ≡ ok tt
  queueing_succeeds payload x marshalled same (schema, missing) taken posting =
      let m = message_of (ledger_entry_for_outbox request) now payload in
      let (n, answered) =
        answers.insert_answers m x (posted_account request now posting.account)
          (ap outbox_schema same ∙ schema)
          (ap (find? (λ row. row.transaction_id == request.transaction_id)) same ∙ missing)
          (ap (find? (λ row. row.id == request.account_id)) posting.row
            ∙ find?-update_all (λ (row : Account). row.id) request.account_id
                (posted_account request now) (λ row. refl) rows posting.account posting.found)
          taken (omega arith) in
      create_outbox_entry_succeeds pg.tx i.tx json request now payload n x marshalled answered

  update_posts :
      (payload : B) (x : X) (p : P) (m : M) (r : Result Account) (a : Account)
      → json.marshal (ledger_entry_for_outbox request) ≡ some payload
      → Insertable
      → answers.is_jsonb payload ≡ true
      → i.tx.messages x ≡ queue
      → Outcome request now rows (i.tx.accounts x) r
      → r ≡ ok a
      → Posted (after_update pg c json request now r x p m)
  unfolding after_update
  update_posts payload x p m (err e) a marshalled free taken same outcome h =
      absurd (err_ne_ok e a h)
  update_posts payload x p m (ok _) a marshalled free taken same posting h =
      let (queued, kept) = create_outbox_entry_outcome pg.tx i.tx json request now x in
      let (r, x') = create_outbox_entry pg.tx json request now x in
      outbox_posts x' p m r (queueing_succeeds payload x marshalled same free taken posting)
        (subst (Posting request now rows) (sym kept) posting)
        (subst (λ q. QueuedIf json request now q (i.tx.messages x') r) same queued)

  module _ (a : Account) (is : IsPostable request a) (amount : IsInt64 request.amount)
      (valid : accounts_schema rows ≡ true)
      (columns : All (FitsColumns answers.accounts.storable) rows)
      (found : find? (λ row. row.id == request.account_id) rows ≡ some a) (payload : B)
      (marshalled : json.marshal (ledger_entry_for_outbox request) ≡ some payload)
      (free : Insertable) (taken : answers.is_jsonb payload ≡ true) where
    range : All (λ row. IsInt64 row.balance) rows
    range = All-mono (FitsColumns answers.accounts.storable) _ (λ row is. is.balance) rows columns

    begin_posts :
        (p p' : P) (m : M) (r : Reply X) (x : X)
        → i.pool.accounts p ≡ rows
        → i.pool.messages p ≡ queue
        → Began i.pool i.tx p (r, p')
        → r ≡ done x
        → Posted (after_begin pg c json request now r p' m)
    unfolding after_begin
    begin_posts p p' m fault x sa sq began e = absurd (fault_ne_done x e)
    begin_posts p p' m (done x) _ sa sq (_, (shown, shown')) e =
        let same = sym shown ∙ sa in
        let same' = sym shown' ∙ sq in
        let (outcome, kept) =
          update-Outcome pg i c json request now rows queue is.known amount valid range x same
            same' in
        let (r, x') = lock_and_update_account pg.tx request now x in
        update_posts payload x' p' m r (posted_account request now a) marshalled free taken kept
          outcome
          (lock_and_update_account_succeeds pg.tx i.tx answers.accounts request now a is x
            (ap accounts_schema same ∙ valid)
            (subst (All (FitsColumns answers.accounts.storable)) (sym same) columns)
            (ap (find? (λ row. row.id == request.account_id)) same ∙ found))

    check_posts :
        (p : P) (m : M) (r : Result Bool)
        → i.pool.accounts p ≡ rows
        → i.pool.messages p ≡ queue
        → r ≡ ok false
        → Posted (after_check pg c json request now r p m)
    unfolding after_check
    check_posts p m (err e) sa sq h = absurd (err_ne_ok e false h)
    check_posts p m (ok true) sa sq h = absurd (true_ne_false h)
      where
        true_ne_false : Path (Result Bool) (ok true) (ok false) → ⊥
        true_ne_false h = ground arith
    check_posts p m (ok false) sa sq h =
        let (x, began) = answers.begin_answers p in
        begin_posts p (pg.begin p).1 m (pg.begin p).0 x sa sq (i.begin_lem p) began

module _ {B P X M : Type 0} (pg : Postgres B P X) (i : IsPostgres pg) (c : Collection M)
    (j : IsCollection c) (json : Json B) (answers : TransactionsAnswer pg i) (ledger : Answers c)
    (request : TransactionRequest) (now : ℕ) where
  unknown_goes_on :
      (m : M)
      → entry_of request.transaction_id (j.entries m) ≡ none
      → (check_idempotency c request m).0 ≡ ok false
  unfolding check_idempotency errors_is
  unknown_goes_on m new =
      rw (get_missing c j ledger now request.transaction_id m new, skip_or_not) refl

  -- Over databases that answer, a request that can be carried out is: `ProcessTransaction` returns no
  -- error, the amount has moved the balance of its account and its message stands at the end of the
  -- outbox. This holds of a request that passes the validator and has a 64-bit amount, whose account is
  -- there, allows it and has room for it, whose transaction is neither in the ledger nor in the outbox,
  -- and whose entry is JSON that JSONB takes, from tables that satisfy their constraints and the limits
  -- of their columns.
  pub process_transaction_posts :
      (w : World P M) (a : Account) (payload : B)
      → IsPostable request a
      → validate request ≡ ok tt
      → IsInt64 request.amount
      → accounts_schema (i.pool.accounts w.pg) ≡ true
      → All (FitsColumns answers.accounts.storable) (i.pool.accounts w.pg)
      → outbox_schema (i.pool.messages w.pg) ≡ true
      → find? (λ row. row.id == request.account_id) (i.pool.accounts w.pg) ≡ some a
      → find? (λ row. row.transaction_id == request.transaction_id) (i.pool.messages w.pg) ≡ none
      → entry_of request.transaction_id (j.entries w.mongo) ≡ none
      → json.marshal (ledger_entry_for_outbox request) ≡ some payload
      → answers.is_jsonb payload ≡ true
      → let (r, w') = process_transaction pg c json request now w in
        (r ≡ ok tt)
        × Accepted json request now
            (i.pool.accounts w.pg)
            (i.pool.messages w.pg)
            (i.pool.accounts w'.pg)
            (i.pool.messages w'.pg)
  unfolding process_transaction after_validation
  process_transaction_posts w a payload is ok' amount valid columns schema found free new marshalled
        taken =
      rw (ok', after_validation)
        (check_posts pg i c json answers request now (i.pool.accounts w.pg) (i.pool.messages w.pg) a
          is amount valid columns found payload marshalled (schema, free) taken w.pg
          (check_idempotency c request w.mongo).1 (check_idempotency c request w.mongo).0 refl refl
          (unknown_goes_on w.mongo new))
