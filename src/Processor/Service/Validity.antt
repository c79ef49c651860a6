-- ===== src/Processor/Service/Validity.antt =====
-- The invariant of the tables, which every request keeps.
use innoscripta_banking_ledg.Base.{
  ℕ, IsInt64, ◌≡◌, inl, inr, sym, true, List, All, All-update_all, subst, arith,
}
use innoscripta_banking_ledg.Domain.Shared.{TransactionRequest}
use innoscripta_banking_ledg.Domain.Account.{Account}
use innoscripta_banking_ledg.Domain.Outbox.{Json, Message}
use innoscripta_banking_ledg.Platform.Schema.{accounts_schema, outbox_schema}
use innoscripta_banking_ledg.Platform.Postgres.{Postgres, IsPostgres}
use innoscripta_banking_ledg.Platform.Collection.{Collection}
use innoscripta_banking_ledg.Processor.AccountManager.Change.{posted_account}
use innoscripta_banking_ledg.Processor.AccountManager.Posting.{Posting}
use innoscripta_banking_ledg.Platform.World.{World}
use innoscripta_banking_ledg.Processor.Service.{process_transaction}
use innoscripta_banking_ledg.Processor.Service.Atomicity.{AllOrNothing, process_transaction_atomic}

-- No balance is negative or beyond 64 bits, no two accounts share an ID or a national ID, and no two
-- messages an ID or a transaction.
pub record IsValid {B : Type 0} (rows : List Account) (queue : List (Message B)) : Type 0 where
  pub accounts : accounts_schema rows ≡ true
  pub range : All (λ row. IsInt64 row.balance) rows
  pub outbox : outbox_schema queue ≡ true

Posting-range :
    (request : TransactionRequest) (now : ℕ) (before after : List Account)
    → accounts_schema before ≡ true
    → All (λ row. IsInt64 row.balance) before
    → Posting request now before after
    → All (λ row. IsInt64 row.balance) after
Posting-range request now before after valid range p =
    subst (All (λ row. IsInt64 row.balance)) (sym p.row) (
      All-update_all (λ row. row.id) request.account_id (posted_account request now)
        (λ row. IsInt64 row.balance) before p.account (ground arith) p.found range p.fits)

pub AllOrNothing-IsValid :
    {B P X : Type 0} (pg : Postgres B P X) (i : IsPostgres pg) (json : Json B)
    (request : TransactionRequest) (now : ℕ) (rows : List Account) (queue : List (Message B))
    (p : P)
    → IsValid rows queue
    → AllOrNothing json request now i rows queue p
    → IsValid (i.pool.accounts p) (i.pool.messages p)
AllOrNothing-IsValid pg i json request now rows queue p v (inl (same, same')) = record {
  accounts = subst (λ l. accounts_schema l ≡ true) (sym same) v.accounts;
  range = subst (All (λ row. IsInt64 row.balance)) (sym same) v.range;
  outbox = subst (λ l. outbox_schema l ≡ true) (sym same') v.outbox;
}
AllOrNothing-IsValid pg i json request now rows queue p v (inr (posting, queued)) = record {
  accounts = posting.schema;
  range = Posting-range request now _ _ v.accounts v.range posting;
  outbox = queued.schema;
}

-- Every request keeps the tables valid, whatever the databases answer.
pub process_transaction-IsValid :
    {B P X M : Type 0} (pg : Postgres B P X) (i : IsPostgres pg) (c : Collection M) (json : Json B)
    (request : TransactionRequest) (now : ℕ) (w : World P M)
    → IsInt64 request.amount
    → IsValid (i.pool.accounts w.pg) (i.pool.messages w.pg)
    → let w' = (process_transaction pg c json request now w).1 in
      IsValid (i.pool.accounts w'.pg) (i.pool.messages w'.pg)
process_transaction-IsValid pg i c json request now w amount v =
    AllOrNothing-IsValid pg i json request now _ _ _ v
      (process_transaction_atomic pg i c json request now w amount v.accounts v.range)
