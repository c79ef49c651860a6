-- ===== src/Data/AccountRepository/Locking.antt =====
-- What `LockForUpdate`, `GetByID` and `Update` of the account repository come back with, on every
-- reply of the database.
use innoscripta_banking_ledg.Base.{
  ℕ, pos, ◌-ℤ◌, eqb_ℤ, wrap64, Bool, ◌&&◌, ◌≡◌, ◌≢◌, ◌⊎◌, true, none, some, List, ◌==◌, find?,
  count, update_all, arith,
}
use innoscripta_banking_ledg.Domain.Account.{Account}
use innoscripta_banking_ledg.Domain.Error.{
  external, wrapped, account_not_found, concurrent_modification,
}
use innoscripta_banking_ledg.Domain.Result.{Result, ok, err}
use innoscripta_banking_ledg.Platform.Querier.{Querier, IsQuerier}
use innoscripta_banking_ledg.Platform.Schema.{accounts_schema}
use innoscripta_banking_ledg.Data.AccountRepository.{
  at_previous_version, overwrite, get_by_id, lock_for_update, update,
}

-- The row under an ID, or the error that says that there is none.
abbrev pub Read : ℕ → List Account → Result Account → Type 0
Read id rows (ok a) = find? (λ row. row.id == id) rows ≡ some a
Read id rows (err e) =
    ((e ≡ account_not_found id) × (find? (λ row. row.id == id) rows ≡ none))
    ⊎ (e ≡ wrapped external)

-- The row that an update is meant for: it has the ID of the account and the version before its own.
abbrev pub has_version_before : Account → Account → Bool
has_version_before acc row = row.id == acc.id && eqb_ℤ row.version (wrap64 (acc.version -ℤ pos 1))

-- What is written into it: all but the ID and the time of creation.
abbrev pub written_over : Account → Account → Account
written_over acc row = record {
  id = row.id;
  owner_name = acc.owner_name;
  national_id = acc.national_id;
  balance = acc.balance;
  currency = acc.currency;
  version = acc.version;
  created_at = row.created_at;
  updated_at = acc.updated_at;
}

-- A conflict is reported exactly where no row has the ID and the version before.
abbrev pub Updated : Account → List Account → List Account → Result (Unit {0}) → Type 0
Updated acc before after (ok _) =
    (after ≡ update_all (has_version_before acc) (written_over acc) before)
    × (accounts_schema after ≡ true)
    × (count (has_version_before acc) before ≢ 0)
Updated acc before after (err e) =
    ((e ≡ concurrent_modification acc.id) × (count (has_version_before acc) before ≡ 0))
    ⊎ (e ≡ wrapped external)

module _ {B Q : Type 0} (q : Querier B Q) (i : IsQuerier q) where
  pub lock_for_update_reads :
      (id : ℕ) (s : Q)
      → let (r, s') = lock_for_update q id s in
        Read id (i.accounts s) r × (i.accounts s' ≡ i.accounts s) × (i.messages s' ≡ i.messages s)
  unfolding lock_for_update
  lock_for_update_reads id s = ground (
    arith,
    i.select_account_finds (λ row. row.id == id) s,
    i.select_account_keeps (λ row. row.id == id) s,
  )

  pub get_by_id_reads :
      (id : ℕ) (s : Q)
      → let (r, s') = get_by_id q id s in
        Read id (i.accounts s) r × (i.accounts s' ≡ i.accounts s) × (i.messages s' ≡ i.messages s)
  unfolding get_by_id
  get_by_id_reads id s = ground (
    arith,
    i.select_account_finds (λ row. row.id == id) s,
    i.select_account_keeps (λ row. row.id == id) s,
  )

  -- `Update` on every reply of PostgreSQL: success overwrites all but the ID and the time of creation
  -- of the rows that have the ID of the account and the version before its own, of which there is one
  -- at least, and leaves the constraints satisfied; a concurrent modification is reported only where there is no such row. The outbox is
  -- untouched.
  pub update_writes :
      (acc : Account) (s : Q)
      → let (r, s') = update q acc s in
        Updated acc (i.accounts s) (i.accounts s') r × (i.messages s' ≡ i.messages s)
  unfolding update
  update_writes acc s = ground (
    arith,
    i.update_accounts_writes (at_previous_version acc) (overwrite acc) s,
    i.update_accounts_counts (at_previous_version acc) (overwrite acc) s,
    i.update_accounts_keeps (at_previous_version acc) (overwrite acc) s,
  )
