-- ===== src/Processor/System/Settlement.antt =====
-- From a request to the ledger: `ProcessTransaction` and the ticks of the poller after it, over
-- databases that answer.
use innoscripta_banking_ledg.Base.{
  ℕ, ℤ, pos, pos_part, ◌+ℤ◌, ◌+◌, ◌≤◌, ◌<◌, IsInt32, IsInt64, ◌≡◌, inl, refl, sym, subst, true,
  none, some, List, [], ◌∷◌, ◌++◌, ◌==◌, map, length, find?, find?_of_append, find?-append_new,
  sum_of, distinct, All, arith,
}
use innoscripta_banking_ledg.Domain.Shared.{TransactionRequest, completed}
use innoscripta_banking_ledg.Domain.Result.{ok}
use innoscripta_banking_ledg.Domain.Account.{Account}
use innoscripta_banking_ledg.Domain.Ledger.{Entry}
use innoscripta_banking_ledg.Domain.Outbox.{Json, IsJson, Message, message_of}
use innoscripta_banking_ledg.Platform.Schema.{accounts_schema, outbox_schema, FitsColumns}
use innoscripta_banking_ledg.Platform.Postgres.{Postgres, IsPostgres}
use innoscripta_banking_ledg.Platform.Collection.{Collection, IsCollection}
use innoscripta_banking_ledg.Platform.World.{World}
use innoscripta_banking_ledg.Data.LedgerRepository.Answering.{Answers}
use innoscripta_banking_ledg.Data.LedgerRepository.Entries.{entry_of, HasStatus}
use innoscripta_banking_ledg.Processor.Validator.{validate}
use innoscripta_banking_ledg.Processor.AccountManager.Posting.{Posting}
use innoscripta_banking_ledg.Processor.AccountManager.Success.{IsPostable}
use innoscripta_banking_ledg.Processor.OutboxManager.{ledger_entry_for_outbox}
use innoscripta_banking_ledg.Processor.OutboxManager.Queueing.{Queued}
use innoscripta_banking_ledg.Processor.System.Delivery.{All-append}
use innoscripta_banking_ledg.Processor.Service.{process_transaction}
use innoscripta_banking_ledg.Processor.Service.Success.{
  TransactionsAnswer, process_transaction_posts,
}
use innoscripta_banking_ledg.Processor.Poller.{Poller, tick, start}
use innoscripta_banking_ledg.Processor.Poller.Effort.{attempts_left, effort, efforts, HasRoom}
use innoscripta_banking_ledg.Processor.Poller.Settling.{PollingAnswers}
use innoscripta_banking_ledg.Processor.Poller.Readiness.{IsOrderly}
use innoscripta_banking_ledg.Processor.Poller.Tracking.{IsTracked, start_completes}

sum_of-append {ℓ} :
    {A : Type ℓ} (f : A → ℕ) (xs : List A) (a : A) → sum_of f (xs ++ a ∷ []) ≡ sum_of f xs + f a
sum_of-append f [] a = omega arith
sum_of-append f (x ∷ xs) a = omega (arith, sum_of-append f xs a)

module _ {B : Type 0} (json : Json B) (codec : IsJson json) (limit : ℤ)
    (request : TransactionRequest) (now : ℕ) (before after : List (Message B))
    (queued : Queued json request now before after) where
  abbrev queued_row : Message B
  queued_row = record (message_of (ledger_entry_for_outbox request) now queued.payload) {
    id = queued.number;
  }

  -- The outbox of a request that has been queued can be polled, with the failures of one message more.
  queued-IsOrderly :
      All (HasRoom limit) before
      → IsOrderly limit after
        × (efforts limit after ≡ efforts limit before + attempts_left limit (pos 0))
  unfolding ◌+ℤ◌
  queued-IsOrderly room = (
    record {
      schema = queued.schema;
      room =
          subst (All (HasRoom limit)) (sym queued.row)
            (All-append (HasRoom limit) before queued_row room (λ h. omega arith));
    },
    rw queued.row (sum_of-append (effort limit) before queued_row),
  )

  queued-IsTracked :
      (entries : List Entry) → IsTracked json queued.number request.transaction_id after entries
  queued-IsTracked entries = record {
    row = queued_row;
    found = rw queued.row (
        find?-append_new (λ (r : Message B). r.id == queued.number) before queued_row
          (find?_of_append (λ r. r.id) before queued_row
            (subst (λ l. distinct (λ a b. a.id == b.id) l ≡ true) queued.row
              (ground (arith, queued.schema))))
          (ground arith));
    entry = ledger_entry_for_outbox request;
    readable = codec.round_trip (ledger_entry_for_outbox request) queued.payload queued.marshalled;
    of_transaction = refl;
    progress = inl refl;
  }

module _ {B P X M : Type 0} (pg : Postgres B P X) (i : IsPostgres pg) (c : Collection M)
    (j : IsCollection c) (json : Json B) (codec : IsJson json) (answers : TransactionsAnswer pg i)
    (polling : PollingAnswers pg.pool i.pool) (ledger : Answers c) (poller : Poller)
    (range : IsInt32 poller.max_retry_attempts) (some_fit : 0 < pos_part poller.batch_size) where
  -- From a request to the ledger. Over databases that answer, a request that can be carried out is
  -- acknowledged, and after the ticks that the pending messages may take, its own included, its
  -- transaction is COMPLETED in the ledger and its amount has moved the balance of its account, once,
  -- and no other account has changed. This holds of a request that passes the validator and has a
  -- 64-bit amount, whose account is there, allows it and has room for the new balance and the next
  -- version, whose transaction is neither in the ledger nor in the outbox, and whose entry is JSON that
  -- JSONB takes; from tables that satisfy their constraints and the limits of their columns and have
  -- room to count one more attempt of each pending message; with a positive batch size and a 32-bit
  -- limit of attempts; and with a codec that reads back what it has written.
  pub process_transaction_completes :
      (request : TransactionRequest) (now : ℕ) (times : List ℕ) (w : World P M) (a : Account)
      (payload : B)
      → IsPostable request a
      → validate request ≡ ok tt
      → IsInt64 request.amount
      → accounts_schema (i.pool.accounts w.pg) ≡ true
      → All (FitsColumns answers.accounts.storable) (i.pool.accounts w.pg)
      → outbox_schema (i.pool.messages w.pg) ≡ true
      → All (HasRoom poller.max_retry_attempts) (i.pool.messages w.pg)
      → find? (λ row. row.id == request.account_id) (i.pool.accounts w.pg) ≡ some a
      → find? (λ row. row.transaction_id == request.transaction_id) (i.pool.messages w.pg) ≡ none
      → entry_of request.transaction_id (j.entries w.mongo) ≡ none
      → json.marshal (ledger_entry_for_outbox request) ≡ some payload
      → answers.is_jsonb payload ≡ true
      → efforts poller.max_retry_attempts (i.pool.messages w.pg)
          + attempts_left poller.max_retry_attempts (pos 0)
        ≤ length times
      → let (r, w') = process_transaction pg c json request now w in
        let w'' = start poller pg.pool c json (map tick times) w' in
        (r ≡ ok tt)
        × HasStatus completed request.transaction_id (j.entries w''.mongo)
        × Posting request now (i.pool.accounts w.pg) (i.pool.accounts w''.pg)
  process_transaction_completes request now times w a payload is valid amount schema columns schema'
        room found free new marshalled taken enough =
      let w' = (process_transaction pg c json request now w).1 in
      let (acknowledged, (posting, queued)) =
        process_transaction_posts pg i c j json answers ledger request now w a payload is valid
          amount schema columns schema' found free new marshalled taken in
      let (o, more) =
        queued-IsOrderly json codec poller.max_retry_attempts request now (i.pool.messages w.pg)
          (i.pool.messages w'.pg) queued room in
      let (has, same) =
        start_completes poller pg.pool i.pool c j json polling ledger range queued.number
          request.transaction_id some_fit times w' o
          (queued-IsTracked json codec poller.max_retry_attempts request now (i.pool.messages w.pg)
            (i.pool.messages w'.pg) queued (j.entries w'.mongo))
          (omega arith) in
      (acknowledged, has, subst (Posting request now (i.pool.accounts w.pg)) (sym same) posting)
