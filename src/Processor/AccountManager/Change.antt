-- ===== src/Processor/AccountManager/Change.antt =====
-- What one request does to the balance of one account, in integers without wrap-around.
use innoscripta_banking_ledg.Base.{
  ℕ, ℤ, pos, negsuc, ◌+ℤ◌, ◌-ℤ◌, ◌≤ℤ◌, leb_ℤ, IsInt64, wrap64, ◌≡◌, refl, true, arith, eq_iff,
}
use innoscripta_banking_ledg.Domain.Shared.{
  TransactionRequest, TransactionType, deposit, withdrawal, unknown,
}
use innoscripta_banking_ledg.Domain.Result.{ok}
use innoscripta_banking_ledg.Domain.Account as AccountModel
use innoscripta_banking_ledg.Domain.Account.{Account}
use innoscripta_banking_ledg.Processor.Validator.{is_known}
use innoscripta_banking_ledg.Processor.AccountManager.{change_account}

-- The balance after a transaction.
abbrev pub moved : TransactionType → ℤ → ℤ → ℤ
moved deposit amount balance = balance +ℤ amount
moved withdrawal amount balance = balance -ℤ amount
moved (unknown _) amount balance = balance

-- The account after a transaction, with its balance as an integer.
abbrev pub posted_account : TransactionRequest → ℕ → Account → Account
posted_account request now a = record a {
  balance = moved request.type request.amount a.balance;
  version = wrap64 (a.version +ℤ pos 1);
  updated_at = now;
}

-- What a request needs of the account that it is about.
pub record Allowed (request : TransactionRequest) (a : Account) : Type 0 where
  pub currency : a.currency ≡ request.currency
  pub positive : pos 1 ≤ℤ request.amount
  pub covered : request.type ≡ withdrawal → request.amount ≤ℤ a.balance

-- A change that succeeds was allowed, and comes out with the balance wrapped.
pub change_account_ok :
    (request : TransactionRequest) (now : ℕ) (a a' : Account)
    → is_known request.type ≡ true
    → change_account request now a ≡ ok a'
    → Allowed request a
      × (a' ≡ record (posted_account request now a) {
        balance = wrap64 (moved request.type request.amount a.balance);
      })
unfolding change_account AccountModel.deposit AccountModel.withdraw
change_account_ok request now a a' k h = ground (arith, eq_iff a.currency request.currency)

-- A sum of two balances that does not fit comes out negative: where the wrapped balance is not
-- negative, it is the exact one.
pub moved_exact :
    (type : TransactionType) (amount balance : ℤ)
    → IsInt64 amount
    → IsInt64 balance
    → pos 0 ≤ℤ balance
    → pos 1 ≤ℤ amount
    → (type ≡ withdrawal → amount ≤ℤ balance)
    → leb_ℤ (pos 0) (wrap64 (moved type amount balance)) ≡ true
    → wrap64 (moved type amount balance) ≡ moved type amount balance
unfolding wrap64 ◌+ℤ◌ ◌-ℤ◌
moved_exact deposit (pos n) (pos m) ia ib b p c h = ground arith
moved_exact withdrawal (pos n) (pos m) ia ib b p c h = ground (arith, c refl)
moved_exact (unknown _) (pos n) (pos m) ia ib b p c h = ground arith
moved_exact _ (negsuc n) balance ia ib b p c h = absurd (omega arith)
moved_exact _ (pos n) (negsuc m) ia ib b p c h = absurd (omega arith)
