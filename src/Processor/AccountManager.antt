-- ===== src/Processor/AccountManager.antt =====
-- internal/transaction_processor/components/account_manager.go: the part of a transaction that reads
pub mod Outcome
pub mod Posting
pub mod Change
pub mod Rewriting
pub mod Success
-- and writes the account, on the querier of an open database transaction.
use innoscripta_banking_ledg.Base.{ℕ, not, str_eq, if◌then◌else◌}
use innoscripta_banking_ledg.Domain.Shared.{
  TransactionRequest, TransactionType, deposit, withdrawal, unknown,
}
use innoscripta_banking_ledg.Domain.Error.{wrapped, invalid_currency, account_not_found, errors_is}
use innoscripta_banking_ledg.Domain.Result.{Result, ok, err, Exec}
use innoscripta_banking_ledg.Domain.Account as AccountModel
use innoscripta_banking_ledg.Domain.Account.{Account}
use innoscripta_banking_ledg.Platform.Querier.{Querier}
use innoscripta_banking_ledg.Data.AccountRepository.{lock_for_update, update}

-- The `if` on the type; a type that is neither leaves the account as it is.
unfoldable pub apply_to_account :
    TransactionRequest → TransactionType → ℕ → Account → Result Account
apply_to_account request deposit now a = AccountModel.deposit request.amount now a
apply_to_account request withdrawal now a = AccountModel.withdraw request.amount now a
apply_to_account request (unknown _) now a = ok a

-- The checks on the locked account and its change in memory.
unfoldable pub change_account : TransactionRequest → ℕ → Account → Result Account
unfolding apply_to_account
change_account request now a =
    if not (str_eq a.currency request.currency)
    then err invalid_currency
    else apply_to_account request request.type now a

-- A missing account is passed on, any other error of the lock is wrapped.
unfoldable pub locked : TransactionRequest → Result Account → Result Account
locked request (ok a) = ok a
locked request (err e) =
    if errors_is e (account_not_found request.account_id) then err e else err (wrapped e)

module _ {B X : Type 0} (q : Querier B X) where
  -- The error of `Update` is passed on as it is.
  persisted : Account → Result (Unit {0}) → Result Account
  persisted a (ok _) = ok a
  persisted a (err e) = err e

  persist : Result Account → Exec X Account
  unfolding persisted
  persist (err e) x = (err e, x)
  persist (ok a) x = let (r, x') = update q a x in (persisted a r, x')

  change_and_persist : TransactionRequest → ℕ → Result Account → Exec X Account
  unfolding persist
  change_and_persist request now (err e) x = (err e, x)
  change_and_persist request now (ok a) x = persist (change_account request now a) x

  unfoldable pub lock_and_update_account : TransactionRequest → ℕ → Exec X Account
  unfolding change_and_persist locked
  lock_and_update_account request now x =
      let (r, x') = lock_for_update q request.account_id x in
      change_and_persist request now (locked request r) x'
