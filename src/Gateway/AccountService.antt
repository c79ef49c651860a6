-- ===== src/Gateway/AccountService.antt =====
-- internal/api_gateway/service/account_service.go.
pub mod Creation
use innoscripta_banking_ledg.Base.{ℕ, ℤ, String, Option, none, some}
use innoscripta_banking_ledg.Domain.Error.{duplicate_national_id}
use innoscripta_banking_ledg.Domain.Result.{Result, ok, err, Exec}
use innoscripta_banking_ledg.Domain.Account.{Account, new_account}
use innoscripta_banking_ledg.Platform.Querier.{Querier}
use innoscripta_banking_ledg.Data.AccountRepository as AccountRepository

module _ {B Q : Type 0} (q : Querier B Q) where
  stored_account : Account → Result (Unit {0}) → Result Account
  stored_account acc (ok _) = ok acc
  stored_account acc (err e) = err e

  store_account : Result Account → Exec Q Account
  unfolding stored_account
  store_account (err e) s = (err e, s)
  store_account (ok acc) s =
      let (r, s') = AccountRepository.create q acc s in (stored_account acc r, s')

  module _ (new_id now : ℕ) (owner_name national_id : String) (initial_balance : ℤ)
      (currency : String) where
    after_lookup : Result (Option Account) → Exec Q Account
    unfolding store_account
    after_lookup (err e) s = (err e, s)
    after_lookup (ok (some _)) s = (err (duplicate_national_id national_id), s)
    after_lookup (ok none) s =
        store_account (new_account new_id now owner_name national_id initial_balance currency) s

    unfoldable pub create_account : Exec Q Account
    unfolding after_lookup
    create_account s =
        let (existing, s') = AccountRepository.get_by_national_id q national_id s in
        after_lookup existing s'

  unfoldable pub get_account_by_id : ℕ → Exec Q Account
  get_account_by_id id s = AccountRepository.get_by_id q id s
