-- ===== src/Processor/Service/Once.antt =====
-- A request that Kafka delivers again: the unique index of the outbox makes sure that it is posted once.
use innoscripta_banking_ledg.Base.{
  ℕ, IsInt64, ◌≡◌, inl, inr, true, some, none, List, ◌==◌, find?, distinct, find?_of_append, All,
  subst, arith,
}
use innoscripta_banking_ledg.Domain.Shared.{TransactionRequest}
use innoscripta_banking_ledg.Domain.Outbox.{Json, Message}
use innoscripta_banking_ledg.Platform.Schema.{accounts_schema}
use innoscripta_banking_ledg.Platform.Postgres.{Postgres, IsPostgres, SameTables}
use innoscripta_banking_ledg.Platform.Collection.{Collection}
use innoscripta_banking_ledg.Processor.OutboxManager.Queueing.{Queued}
use innoscripta_banking_ledg.Platform.World.{World}
use innoscripta_banking_ledg.Processor.Service.{process_transaction}
use innoscripta_banking_ledg.Processor.Service.Atomicity.{process_transaction_atomic}

-- A message is queued only for a transaction that has none.
Queued-is_first :
    {B : Type 0} (json : Json B) (request : TransactionRequest) (now : ℕ)
    (queue queue' : List (Message B))
    → Queued json request now queue queue'
    → find? (λ m. m.transaction_id == request.transaction_id) queue ≡ none
Queued-is_first json request now queue queue' q =
    find?_of_append (λ m. m.transaction_id) queue _
      (subst (λ l. distinct (λ a b. a.transaction_id == b.transaction_id) l ≡ true) q.row
        (ground arith))

-- Processing a request whose transaction is already in the outbox leaves the accounts and the outbox
-- as they are, from tables that satisfy their constraints and hold 64-bit balances.
pub process_transaction_once :
    {B P X M : Type 0} (pg : Postgres B P X) (i : IsPostgres pg) (c : Collection M) (json : Json B)
    (request : TransactionRequest) (now : ℕ) (w : World P M) (m : Message B)
    → IsInt64 request.amount
    → accounts_schema (i.pool.accounts w.pg) ≡ true
    → All (λ row. IsInt64 row.balance) (i.pool.accounts w.pg)
    → find? (λ m. m.transaction_id == request.transaction_id) (i.pool.messages w.pg) ≡ some m
    → SameTables i.pool i.tx w.pg (process_transaction pg c json request now w).1.pg
process_transaction_once pg i c json request now w m amount valid range queued =
    elim (process_transaction_atomic pg i c json request now w amount valid range) [
      | inl same ↦ same
      | inr (posting, again) ↦ cc (queued, Queued-is_first json request now _ _ again)
    ]
