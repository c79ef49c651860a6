-- ===== src/Processor/Service/Money.antt =====
-- Money is neither made nor lost: the balances add up to what they did before, or to that and the
-- amount of the request.
use innoscripta_banking_ledg.Base.{
  ℕ, ℤ, pos_part, neg_part, ◌+ℤ◌, IsInt64, int_laws, ◌≡◌, ◌⊎◌, inl, inr, true, List, All, arith, ap,
  ◌∙◌,
}
use innoscripta_banking_ledg.Domain.Shared.{
  TransactionRequest, TransactionType, deposit, withdrawal, unknown,
}
use innoscripta_banking_ledg.Domain.Account.{Account}
use innoscripta_banking_ledg.Domain.Account.Total.{total, total-update_all}
use innoscripta_banking_ledg.Domain.Outbox.{Json}
use innoscripta_banking_ledg.Platform.Schema.{accounts_schema}
use innoscripta_banking_ledg.Platform.Postgres.{Postgres, IsPostgres}
use innoscripta_banking_ledg.Platform.Collection.{Collection}
use innoscripta_banking_ledg.Processor.AccountManager.Change.{moved, posted_account}
use innoscripta_banking_ledg.Processor.AccountManager.Posting.{Posting}
use innoscripta_banking_ledg.Platform.World.{World}
use innoscripta_banking_ledg.Processor.Service.{process_transaction}
use innoscripta_banking_ledg.Processor.Service.Atomicity.{process_transaction_atomic}

-- What moves one balance by an amount moves the total by it.
moved_total :
    (type : TransactionType) (amount balance before after : ℤ)
    → after +ℤ balance ≡ before +ℤ moved type amount balance
    → after ≡ moved type amount before
moved_total deposit amount balance before after h = grind (int_laws, ap pos_part h, ap neg_part h)
moved_total withdrawal amount balance before after h =
    grind (int_laws, ap pos_part h, ap neg_part h)
moved_total (unknown _) amount balance before after h =
    grind (int_laws, ap pos_part h, ap neg_part h)

Posting-total :
    (request : TransactionRequest) (now : ℕ) (before after : List Account)
    → accounts_schema before ≡ true
    → Posting request now before after
    → total after ≡ moved request.type request.amount (total before)
Posting-total request now before after valid p =
    ap total p.row
    ∙ moved_total request.type request.amount p.account.balance (total before) _ (
        total-update_all request.account_id (posted_account request now) before p.account
          (ground arith) p.found)

-- Processing one request leaves the sum of all balances alone, or moves it by exactly the amount of
-- the request: up by a deposit, down by a withdrawal. This holds from tables that satisfy their
-- constraints and hold 64-bit balances, for a 64-bit amount, whatever the databases answer.
pub process_transaction-total :
    {B P X M : Type 0} (pg : Postgres B P X) (i : IsPostgres pg) (c : Collection M) (json : Json B)
    (request : TransactionRequest) (now : ℕ) (w : World P M)
    → IsInt64 request.amount
    → accounts_schema (i.pool.accounts w.pg) ≡ true
    → All (λ row. IsInt64 row.balance) (i.pool.accounts w.pg)
    → let before = total (i.pool.accounts w.pg) in
      let after = total (i.pool.accounts (process_transaction pg c json request now w).1.pg) in
      (after ≡ before) ⊎ (after ≡ moved request.type request.amount before)
process_transaction-total pg i c json request now w amount valid range =
    elim (process_transaction_atomic pg i c json request now w amount valid range) [
      | inl (same, _) ↦ inl (ap total same)
      | inr (posting, _) ↦ inr (Posting-total request now _ _ valid posting)
    ]
