-- ===== src/Processor/AccountManager/Outcome.antt =====
-- How `LockAndUpdateAccount` ends, on every reply of the database.
use innoscripta_banking_ledg.Base.{
  ℕ, IsInt64, ◌≡◌, ◌⊎◌, inl, inr, refl, sym, ◌∙◌, subst, true, some, none, List, ◌==◌, find?, All,
  arith,
}
use innoscripta_banking_ledg.Domain.Shared.{TransactionRequest}
use innoscripta_banking_ledg.Domain.Error.{
  Error, external, wrapped, account_not_found, concurrent_modification, errors_is,
}
use innoscripta_banking_ledg.Domain.Result.{Result, ok, err}
use innoscripta_banking_ledg.Domain.Account.{Account}
use innoscripta_banking_ledg.Platform.Querier.{Querier, IsQuerier}
use innoscripta_banking_ledg.Platform.Schema.{accounts_schema}
use innoscripta_banking_ledg.Data.AccountRepository.Locking.{
  Read, Updated, lock_for_update_reads, update_writes,
}
use innoscripta_banking_ledg.Processor.Validator.{is_known}
use innoscripta_banking_ledg.Processor.AccountManager.{
  locked, change_account, persisted, persist, change_and_persist, lock_and_update_account,
}
use innoscripta_banking_ledg.Processor.AccountManager.Posting.{Posting, Posting-of_update}

-- The errors after which Kafka is to deliver the request again.
pub data IsTransient : Error → Type 0 where
  lock_failed : IsTransient (wrapped (wrapped external))
  update_failed : IsTransient (wrapped external)
  conflict : (id : ℕ) → IsTransient (concurrent_modification id)

module _ (request : TransactionRequest) (now : ℕ) where
  -- Success is a posting; an error says that the account is missing, that it refuses the change, or
  -- that the database does not answer.
  abbrev pub Outcome : List Account → List Account → Result Account → Type 0
  Outcome before after (ok _) = Posting request now before after
  Outcome before after (err e) =
      ((e ≡ account_not_found request.account_id)
        × (find? (λ row. row.id == request.account_id) before ≡ none))
      ⊎ (((a : Account) × (find? (λ row. row.id == request.account_id) before ≡ some a)
            × (change_account request now a ≡ err e))
          ⊎ IsTransient e)

locked_missing :
    (request : TransactionRequest)
    → locked request (err (account_not_found request.account_id))
      ≡ err (account_not_found request.account_id)
unfolding locked errors_is
locked_missing request = ground arith

module _ {B X : Type 0} (q : Querier B X) (i : IsQuerier q) (request : TransactionRequest) (now : ℕ)
    (known : is_known request.type ≡ true) (amount : IsInt64 request.amount) where
  persisted-Outcome :
      (before after : List Account) (a a' : Account)
      → accounts_schema before ≡ true
      → All (λ row. IsInt64 row.balance) before
      → find? (λ row. row.id == request.account_id) before ≡ some a
      → change_account request now a ≡ ok a'
      → (r : Result (Unit {0})) → Updated a' before after r
      → Outcome request now before after (persisted q a' r)
  unfolding persisted
  persisted-Outcome before after a a' valid range found changed (ok _) (written, schema, hit) =
      Posting-of_update request now known amount before a a' valid found changed hit range after
        written schema
  persisted-Outcome before after a a' valid range found changed (err e) (inl (c, _)) =
      inr (inr (subst IsTransient (sym c) (conflict a'.id)))
  persisted-Outcome before after a a' valid range found changed (err e) (inr c) =
      inr (inr (subst IsTransient (sym c) update_failed))

  change-Outcome :
      (a : Account) (x : X)
      → accounts_schema (i.accounts x) ≡ true
      → All (λ row. IsInt64 row.balance) (i.accounts x)
      → find? (λ row. row.id == request.account_id) (i.accounts x) ≡ some a
      → (r : Result Account) → change_account request now a ≡ r
      → let (r', x') = persist q r x in
        Outcome request now (i.accounts x) (i.accounts x') r' × (i.messages x' ≡ i.messages x)
  unfolding persist
  change-Outcome a x valid range found (ok a') changed = (
    persisted-Outcome (i.accounts x) _ a a' valid range found changed _ (update_writes q i a' x).0,
    (update_writes q i a' x).1,
  )
  change-Outcome a x valid range found (err e) changed = (inr (inl (a, found, changed)), refl)

  -- What follows on a reply to the lock, from a state that still shows the rows `before`.
  locked-Outcome :
      (before : List Account) (x : X)
      → accounts_schema before ≡ true
      → All (λ row. IsInt64 row.balance) before
      → i.accounts x ≡ before
      → (r : Result Account) → Read request.account_id before r
      → let (r', x') = change_and_persist q request now (locked request r) x in
        Outcome request now before (i.accounts x') r' × (i.messages x' ≡ i.messages x)
  unfolding change_and_persist locked errors_is
  locked-Outcome before x valid range same (ok a) found =
      subst
        (λ rows.
          accounts_schema rows ≡ true
          → All (λ row. IsInt64 row.balance) rows
          → find? (λ row. row.id == request.account_id) rows ≡ some a
          → let (r', x') = persist q (change_account request now a) x in
            Outcome request now rows (i.accounts x') r' × (i.messages x' ≡ i.messages x))
        same (λ v r f. change-Outcome a x v r f (change_account request now a) refl) valid range
        found
  locked-Outcome before x valid range same (err e) (inl (c, missing)) =
      rw (c, locked_missing request) (inl (refl, missing), refl)
  locked-Outcome before x valid range same (err e) (inr c) = rw c (inr (inr lock_failed), refl)

  -- `LockAndUpdateAccount` on every reply of the database: success has moved the balance of the
  -- account of the request by its amount, exactly, and touched no other row; an error says that there
  -- is no such account, or is the one with which the account refuses the change, or is one after
  -- which Kafka is to retry. The outbox is untouched. This holds of a known type and a 64-bit amount,
  -- from rows that satisfy their constraints and hold 64-bit balances.
  pub lock_and_update_account-Outcome :
      (x : X)
      → accounts_schema (i.accounts x) ≡ true
      → All (λ row. IsInt64 row.balance) (i.accounts x)
      → let (r, x') = lock_and_update_account q request now x in
        Outcome request now (i.accounts x) (i.accounts x') r × (i.messages x' ≡ i.messages x)
  unfolding lock_and_update_account
  lock_and_update_account-Outcome x valid range =
      let (read, same, kept) = lock_for_update_reads q i request.account_id x in
      let (outcome, messages) = locked-Outcome (i.accounts x) _ valid range same _ read in
      (outcome, messages ∙ kept)
