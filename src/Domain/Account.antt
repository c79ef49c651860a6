-- ===== src/Domain/Account.antt =====
-- internal/domain/account/account.go: the account and its methods. A method that changes the account
-- returns the new one; one that returns an error has changed nothing. `now` is `time.Now()`.
pub mod Total
pub mod Movements
use innoscripta_banking_ledg.Base.{
  ℕ, ℤ, pos, ◌+ℤ◌, ◌-ℤ◌, ltb_ℤ, leb_ℤ, wrap64, String, Bool, not, str_eq, ◌==◌, if◌then◌else◌,
}
use Prim.Native.String.{len}
use innoscripta_banking_ledg.Domain.Result.{Result, ok, err}
use innoscripta_banking_ledg.Domain.Error.{
  insufficient_funds, invalid_amount, empty_owner_name, invalid_currency_format,
}

pub record Account : Type 0 where
  pub id : ℕ
  pub owner_name : String
  pub national_id : String
  pub balance : ℤ  -- int64, in cents
  pub currency : String
  pub version : ℤ  -- int
  pub created_at : ℕ
  pub updated_at : ℕ

abbrev pub opened : ℕ → ℕ → String → String → ℤ → String → Account
opened new_id now owner_name national_id initial_balance currency = record {
  id = new_id;
  owner_name = owner_name;
  national_id = national_id;
  balance = initial_balance;
  currency = currency;
  version = pos 1;
  created_at = now;
  updated_at = now;
}

-- `new_id` is `uuid.New()`.
unfoldable pub new_account : ℕ → ℕ → String → String → ℤ → String → Result Account
new_account new_id now owner_name national_id initial_balance currency =
    if str_eq owner_name ""
    then err empty_owner_name
    else if not (len currency == 3)
    then err invalid_currency_format
    else if ltb_ℤ initial_balance (pos 0)
    then err invalid_amount
    else ok (opened new_id now owner_name national_id initial_balance currency)

abbrev pub deposited : ℤ → ℕ → Account → Account
deposited amount now a = record a {
  balance = wrap64 (a.balance +ℤ amount);
  updated_at = now;
  version = wrap64 (a.version +ℤ pos 1);
}

unfoldable pub deposit : ℤ → ℕ → Account → Result Account
deposit amount now a =
    if leb_ℤ amount (pos 0) then err invalid_amount else ok (deposited amount now a)

abbrev pub withdrawn : ℤ → ℕ → Account → Account
withdrawn amount now a = record a {
  balance = wrap64 (a.balance -ℤ amount);
  updated_at = now;
  version = wrap64 (a.version +ℤ pos 1);
}

unfoldable pub withdraw : ℤ → ℕ → Account → Result Account
withdraw amount now a =
    if leb_ℤ amount (pos 0)
    then err invalid_amount
    else if ltb_ℤ a.balance amount
    then err insufficient_funds
    else ok (withdrawn amount now a)

unfoldable pub can_withdraw : ℤ → Account → Bool
can_withdraw amount a = leb_ℤ amount a.balance
