-- ===== src/Data/AccountRepository.antt =====
-- internal/data/postgres/account_repository.go, over a pool or over a transaction (`WithTx`).
pub mod Locking
use innoscripta_banking_ledg.Base.{
  ℕ, ℤ, pos, ◌+ℤ◌, ◌-ℤ◌, eqb_ℤ, wrap64, String, Bool, ◌&&◌, Option, none, some, ◌==◌, str_eq,
  if◌then◌else◌,
}
use innoscripta_banking_ledg.Domain.Account.{Account}
use innoscripta_banking_ledg.Domain.Error.{
  external, wrapped, account_not_found, concurrent_modification,
}
use innoscripta_banking_ledg.Domain.Result.{Result, ok, err, Exec}
use innoscripta_banking_ledg.Platform.Reply.{Reply, done, fault}
use innoscripta_banking_ledg.Platform.Querier.{Querier}

-- `pgx.ErrNoRows` becomes `ErrAccountNotFound`; any other error is wrapped.
abbrev pub account_or_not_found : ℕ → Reply (Option Account) → Result Account
account_or_not_found id (done none) = err (account_not_found id)
account_or_not_found id (done (some a)) = ok a
account_or_not_found id fault = err (wrapped external)

-- No account under a national ID is no error: `nil, nil`.
abbrev pub account_or_nil : Reply (Option Account) → Result (Option Account)
account_or_nil (done found) = ok found
account_or_nil fault = err (wrapped external)

abbrev pub created : Reply (Unit {0}) → Result (Unit {0})
created (done _) = ok tt
created fault = err (wrapped external)

-- `RowsAffected() == 0` means that another writer was faster.
abbrev modified_or_conflict : ℕ → Reply ℕ → Result (Unit {0})
modified_or_conflict id (done rows) = if rows == 0 then err (concurrent_modification id) else ok tt
modified_or_conflict id fault = err (wrapped external)

-- WHERE id = $7 AND version = $8, of `Update`
abbrev pub at_previous_version : Account → Account → Bool
at_previous_version acc row = row.id == acc.id && eqb_ℤ row.version (wrap64 (acc.version -ℤ pos 1))

-- SET owner_name = $1, ..., updated_at = $6, of `Update`
abbrev pub overwrite : Account → Account → Account
overwrite acc row = record row {
  owner_name = acc.owner_name;
  national_id = acc.national_id;
  balance = acc.balance;
  currency = acc.currency;
  version = acc.version;
  updated_at = acc.updated_at;
}

module _ {B Q : Type 0} (q : Querier B Q) where
  unfoldable pub create : Account → Exec Q (Unit {0})
  create acc s = let (r, s') = q.insert_account acc s in (created r, s')

  unfoldable pub get_by_id : ℕ → Exec Q Account
  get_by_id id s =
      let (r, s') = q.select_account (λ row. row.id == id) s in (account_or_not_found id r, s')

  unfoldable pub get_by_national_id : String → Exec Q (Option Account)
  get_by_national_id national_id s =
      let (r, s') = q.select_account (λ row. str_eq row.national_id national_id) s in
      (account_or_nil r, s')

  unfoldable pub update : Account → Exec Q (Unit {0})
  update acc s =
      let (r, s') = q.update_accounts (at_previous_version acc) (overwrite acc) s in
      (modified_or_conflict acc.id r, s')

  -- SET balance = balance + $1, version = version + 1, updated_at = NOW(), here `now`. A sum out of
  -- the range of its column is an error of the database, so the sums do not wrap.
  unfoldable pub update_balance : ℕ → ℤ → ℤ → ℕ → Exec Q (Unit {0})
  update_balance id amount version now s =
      let (r, s') =
        q.update_accounts (λ row. row.id == id && eqb_ℤ row.version version)
          (λ row. record row {
            balance = row.balance +ℤ amount;
            version = row.version +ℤ pos 1;
            updated_at = now;
          })
          s in
      (modified_or_conflict id r, s')

  unfoldable pub lock_for_update : ℕ → Exec Q Account
  lock_for_update id s =
      let (r, s') = q.select_account (λ row. row.id == id) s in (account_or_not_found id r, s')
