-- ===== src/Data/LedgerRepository/Writes.antt =====
-- What `GetByTransactionID`, `Create` and `UpdateStatus` of the ledger repository come back with and
-- leave in the collection, on every reply of MongoDB.
use innoscripta_banking_ledg.Base.{
  ℕ, String, ◌≡◌, ◌≢◌, ◌⊎◌, inl, inr, refl, false, some, none, List, [], ◌∷◌, ◌++◌, find?,
  update_first, update_first-id, arith,
}
use innoscripta_banking_ledg.Domain.Shared.{TransactionStatus}
use innoscripta_banking_ledg.Domain.Error.{
  external, wrapped, entry_not_found, duplicate_entry, errors_is,
}
use innoscripta_banking_ledg.Domain.Result.{Result, ok, err}
use innoscripta_banking_ledg.Domain.Ledger.{Entry}
use innoscripta_banking_ledg.Platform.Collection.{Collection, IsCollection}
use innoscripta_banking_ledg.Data.LedgerRepository.{
  has_transaction_id, set_status, inserted, get_by_transaction_id, create_checked, create,
  update_status,
}

abbrev pub Read : ℕ → List Entry → Result Entry → Type 0
Read id entries (ok e) = find? (has_transaction_id id) entries ≡ some e
Read id entries (err e) =
    ((e ≡ entry_not_found id) × (find? (has_transaction_id id) entries ≡ none))
    ⊎ (e ≡ wrapped external)

-- A new entry goes behind the others; its transaction had none.
abbrev pub Appended : Entry → List Entry → List Entry → Type 0
Appended entry before after =
    (after ≡ before ++ entry ∷ []) × (find? (has_transaction_id entry.transaction_id) before ≡ none)

-- Success is an append. A duplicate is refused. After a fault the append may have come through.
abbrev pub Created : Entry → List Entry → List Entry → Result (Unit {0}) → Type 0
Created entry before after (ok _) = Appended entry before after
Created entry before after (err e) =
    ((e ≡ duplicate_entry entry.transaction_id)
      × (find? (has_transaction_id entry.transaction_id) before ≢ none)
      × (after ≡ before))
    ⊎ (((after ≡ before) ⊎ Appended entry before after)
        × (errors_is e (duplicate_entry entry.transaction_id) ≡ false))

abbrev pub StatusSet :
    ℕ → TransactionStatus → String → ℕ → List Entry → List Entry → Result (Unit {0}) → Type 0
StatusSet id status reason now before after (ok _) =
    (after ≡ update_first (has_transaction_id id) (set_status status reason now) before)
    × (find? (has_transaction_id id) before ≢ none)
StatusSet id status reason now before after (err e) =
    ((e ≡ entry_not_found id) × (find? (has_transaction_id id) before ≡ none) × (after ≡ before))
    ⊎ ((e ≡ wrapped external)
        × ((after ≡ before)
            ⊎ (after ≡ update_first (has_transaction_id id) (set_status status reason now) before)))

module _ {M : Type 0} (c : Collection M) (i : IsCollection c) where
  pub get_by_transaction_id_reads :
      (id : ℕ) (m : M)
      → let (r, m') = get_by_transaction_id c id m in
        Read id (i.entries m) r × (i.entries m' ≡ i.entries m)
  unfolding get_by_transaction_id
  get_by_transaction_id_reads id m = ground (
    arith,
    i.find_one_finds (has_transaction_id id) m,
    i.find_one_keeps (has_transaction_id id) m,
  )

  insert-Created :
      (entry : Entry) (before : List Entry) (m : M)
      → i.entries m ≡ before
      → find? (has_transaction_id entry.transaction_id) before ≡ none
      → let (r, m') = c.insert_one entry m in Created entry before (i.entries m') (inserted r)
  unfolding errors_is
  insert-Created entry before m same missing = ground (arith, i.insert_one_writes entry m)

  checked-Created :
      (entry : Entry) (before : List Entry) (m : M)
      → i.entries m ≡ before
      → (r : Result Entry) → Read entry.transaction_id before r
      → let (r', m') = create_checked c entry r m in Created entry before (i.entries m') r'
  unfolding create_checked errors_is
  checked-Created entry before m same (ok existing) found = ground arith
  checked-Created entry before m same (err e) (inl (c, missing)) =
      rw c (insert-Created entry before m same missing)
  checked-Created entry before m same (err e) (inr c) = rw c (inr (inl same, refl))

  -- `Create` on every reply of MongoDB: success appends the entry, whose transaction had none; a
  -- transaction that has one is refused as a duplicate, and nothing changes; after any other error
  -- the entry has been appended or nothing has changed.
  pub create_writes :
      (entry : Entry) (m : M)
      → let (r, m') = create c entry m in Created entry (i.entries m) (i.entries m') r
  unfolding create
  create_writes entry m =
      let (read, same) = get_by_transaction_id_reads entry.transaction_id m in
      checked-Created entry (i.entries m) _ same _ read

  -- `UpdateStatus` on every reply of MongoDB: success sets the status, the reason and the time of the
  -- entry of the transaction, which there was; a transaction with no entry is an error that says so,
  -- and nothing changes; after any other error that update has been made or nothing has changed.
  pub update_status_writes :
      (id : ℕ) (status : TransactionStatus) (reason : String) (now : ℕ) (m : M)
      → let (r, m') = update_status c id status reason now m in
        StatusSet id status reason now (i.entries m) (i.entries m') r
  unfolding update_status
  update_status_writes id status reason now m = ground (
    arith,
    i.update_one_writes (has_transaction_id id) (set_status status reason now) m,
    i.update_one_counts (has_transaction_id id) (set_status status reason now) m,
    update_first-id (has_transaction_id id) (set_status status reason now) (i.entries m),
  )
