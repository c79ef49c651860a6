-- ===== src/Gateway/TransactionService/Listing.antt =====
-- What `GetTransactionsByAccountID` gives, on every reply of MongoDB.
use innoscripta_banking_ledg.Base.{
  ℕ, ℤ, pos, pos_part, ◌≤◌, ◌<◌, ◌≡◌, ◌∙◌, subst, true, List, length, count, All, ◌==◌,
}
use mathlib.Core.List.{Memᴰ}
use innoscripta_banking_ledg.Domain.Result.{Result, ok, err}
use innoscripta_banking_ledg.Domain.Ledger.{Entry}
use innoscripta_banking_ledg.Platform.Reply.{Reply, done, fault, Batch}
use innoscripta_banking_ledg.Platform.Collection.{Collection, IsCollection, Counted}
use innoscripta_banking_ledg.Data.LedgerRepository.{
  decoded, counted, get_by_account_id, count_by_account_id,
}
use innoscripta_banking_ledg.Gateway.TransactionService.{
  page_offset, counted_page, count_page, get_transactions_by_account_id,
}

-- Entries of the account, no more of them than the page has room for.
abbrev pub IsPage : ℕ → ℤ → List Entry → List Entry → Type 0
IsPage account_id per_page entries page =
    (length page ≤ pos_part per_page)
    × All (λ e. ((e.account_id == account_id) ≡ true) × Memᴰ e entries) page

abbrev pub total_of : ℕ → List Entry → ℕ
total_of account_id entries = count (λ e. e.account_id == account_id) entries

-- A page with the number of all entries of the account.
abbrev pub Listed : ℕ → ℤ → List Entry → Result (List Entry × ℤ) → Type 0
Listed account_id per_page entries (ok (page, total)) =
    IsPage account_id per_page entries page × (total ≡ pos (total_of account_id entries))
Listed account_id per_page entries (err e) = Unit

module _ {M : Type 0} (c : Collection M) (j : IsCollection c) (account_id : ℕ) (per_page : ℤ) where
  counted-Listed :
      (entries page : List Entry)
      → IsPage account_id per_page entries page
      → (r : Reply ℤ) → Counted (total_of account_id entries) r
      → Listed account_id per_page entries (counted_page c page (counted r))
  counted-Listed entries page is (done n) e = (is, e)
  counted-Listed entries page is fault _ = tt

  found-Listed :
      (entries : List Entry) (m : M)
      → j.entries m ≡ entries
      → (r : Reply (List Entry)) → Batch (λ e. e.account_id == account_id) per_page entries r
      → let (r', m') = count_page c account_id (decoded r) m in
        Listed account_id per_page entries r' × (j.entries m' ≡ entries)
  unfolding count_page count_by_account_id
  found-Listed entries m same fault _ = (tt, same)
  found-Listed entries m same (done page) is = (
    counted-Listed entries page is (c.count_documents (λ e. e.account_id == account_id) m).0 (
        subst
          (λ l.
            Counted (total_of account_id l)
              (c.count_documents (λ e. e.account_id == account_id) m).0)
          same (j.count_documents_counts (λ e. e.account_id == account_id) m)),
    j.count_documents_keeps (λ e. e.account_id == account_id) m ∙ same,
  )

  -- `GetTransactionsByAccountID` on every reply of MongoDB: a page with entries of the account only,
  -- no more than it has room for, which is positive, and the number of all of them; or an error. The
  -- ledger is untouched.
  pub get_transactions_by_account_id_lists :
      (page : ℤ) (m : M)
      → 0 < pos_part per_page
      → let (r, m') = get_transactions_by_account_id c account_id page per_page m in
        Listed account_id per_page (j.entries m) r × (j.entries m' ≡ j.entries m)
  unfolding get_transactions_by_account_id get_by_account_id
  get_transactions_by_account_id_lists page m positive =
      let p = λ (e : Entry). e.account_id == account_id in
      let offset = page_offset page per_page in
      found-Listed (j.entries m) (c.find p offset per_page m).1 (j.find_keeps p offset per_page m) _
        (j.find_finds p offset per_page m positive)

  count_keeps :
      (entries : List Entry) (m : M)
      → j.entries m ≡ entries
      → (r : Result (List Entry)) → j.entries (count_page c account_id r m).1 ≡ entries
  unfolding count_page count_by_account_id
  count_keeps entries m same (err e) = same
  count_keeps entries m same (ok page) =
      j.count_documents_keeps (λ e. e.account_id == account_id) m ∙ same

  -- The ledger is untouched, whatever the size of a page.
  pub get_transactions_by_account_id_keeps :
      (page : ℤ) (m : M)
      → j.entries (get_transactions_by_account_id c account_id page per_page m).1 ≡ j.entries m
  unfolding get_transactions_by_account_id get_by_account_id
  get_transactions_by_account_id_keeps page m =
      let p = λ (e : Entry). e.account_id == account_id in
      let offset = page_offset page per_page in
      count_keeps (j.entries m) (c.find p offset per_page m).1 (j.find_keeps p offset per_page m) _
