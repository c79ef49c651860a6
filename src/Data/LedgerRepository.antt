-- ===== src/Data/LedgerRepository.antt =====
-- internal/data/mongo/ledger_repository.go.
pub mod Writes
pub mod Entries
pub mod Uniqueness
pub mod Answering
use innoscripta_banking_ledg.Base.{
  ℕ, ℤ, String, Bool, ◌&&◌, Option, none, some, List, ◌==◌, leb, str_eq, if◌then◌else◌,
}
use innoscripta_banking_ledg.Domain.Shared.{TransactionStatus}
use innoscripta_banking_ledg.Domain.Error.{
  external, wrapped, entry_not_found, duplicate_entry, empty_idempotency_key, errors_is,
}
use innoscripta_banking_ledg.Domain.Result.{Result, ok, err, Exec}
use innoscripta_banking_ledg.Domain.Ledger.{Entry}
use innoscripta_banking_ledg.Platform.Reply.{Reply, done, fault}
use innoscripta_banking_ledg.Platform.Collection.{Collection}

abbrev entry_or_not_found : ℕ → Reply (Option Entry) → Result Entry
entry_or_not_found id (done none) = err (entry_not_found id)
entry_or_not_found id (done (some e)) = ok e
entry_or_not_found id fault = err (wrapped external)

abbrev pub entry_or_nil : Reply (Option Entry) → Result (Option Entry)
entry_or_nil (done found) = ok found
entry_or_nil fault = err (wrapped external)

abbrev pub inserted : Reply (Unit {0}) → Result (Unit {0})
inserted (done _) = ok tt
inserted fault = err (wrapped external)

abbrev matched_or_not_found : ℕ → Reply ℕ → Result (Unit {0})
matched_or_not_found id (done n) = if n == 0 then err (entry_not_found id) else ok tt
matched_or_not_found id fault = err (wrapped external)

abbrev pub decoded : Reply (List Entry) → Result (List Entry)
decoded (done entries) = ok entries
decoded fault = err (wrapped external)

abbrev pub counted : Reply ℤ → Result ℤ
counted (done n) = ok n
counted fault = err (wrapped external)

-- The filter {"transaction_id": id}
abbrev pub has_transaction_id : ℕ → Entry → Bool
has_transaction_id id e = e.transaction_id == id

-- {"$set": {"status": status, "failure_reason": reason, "processed_at": now}}
abbrev pub set_status : TransactionStatus → String → ℕ → Entry → Entry
set_status status reason now e = record e {
  status = status;
  failure_reason = reason;
  processed_at = some now;
}

module _ {M : Type 0} (c : Collection M) where
  unfoldable pub get_by_transaction_id : ℕ → Exec M Entry
  get_by_transaction_id id m =
      let (r, m') = c.find_one (has_transaction_id id) m in (entry_or_not_found id r, m')

  -- What `Create` does once it knows whether the entry exists.
  create_checked : Entry → Result Entry → Exec M (Unit {0})
  create_checked entry (ok existing) m = (err (duplicate_entry entry.transaction_id), m)
  create_checked entry (err e) m =
      if errors_is e (entry_not_found 0)
      then (let (r, m') = c.insert_one entry m in (inserted r, m'))
      else (err (wrapped e), m)

  unfoldable pub create : Entry → Exec M (Unit {0})
  unfolding create_checked get_by_transaction_id errors_is
  create entry m =
      let (existing, m') = get_by_transaction_id entry.transaction_id m in
      create_checked entry existing m'

  unfoldable pub get_by_idempotency_key : String → Exec M (Option Entry)
  get_by_idempotency_key key m =
      if str_eq key ""
      then (err empty_idempotency_key, m)
      else (let (r, m') = c.find_one (λ e. str_eq e.idempotency_key key) m in (entry_or_nil r, m'))

  unfoldable pub get_by_account_id : ℕ → ℤ → ℤ → Exec M (List Entry)
  get_by_account_id account_id limit offset m =
      let (r, m') = c.find (λ e. e.account_id == account_id) offset limit m in (decoded r, m')

  unfoldable pub count_by_account_id : ℕ → Exec M ℤ
  count_by_account_id account_id m =
      let (r, m') = c.count_documents (λ e. e.account_id == account_id) m in (counted r, m')

  unfoldable pub update_status : ℕ → TransactionStatus → String → ℕ → Exec M (Unit {0})
  update_status id status reason now m =
      let (r, m') = c.update_one (has_transaction_id id) (set_status status reason now) m in
      (matched_or_not_found id r, m')

  unfoldable pub get_by_time_range : ℕ → ℕ → ℤ → ℤ → Exec M (List Entry)
  get_by_time_range start_time end_time limit offset m =
      let (r, m') =
        c.find (λ e. leb start_time e.created_at && leb e.created_at end_time) offset limit m in
      (decoded r, m')
