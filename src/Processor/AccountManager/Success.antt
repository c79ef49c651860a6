-- ===== src/Processor/AccountManager/Success.antt =====
-- `LockAndUpdateAccount` over a database that answers: it comes to its end.
use innoscripta_banking_ledg.Base.{
  ℕ, pos, ◌+ℤ◌, leb_ℤ, IsInt32, IsInt64, String, sym, subst, ◌≡◌, refl, ◌∙◌, ap, Bool, true, Option,
  some, ◌==◌, find?, update_all, All, arith,
}
use innoscripta_banking_ledg.Domain.Shared.{TransactionRequest}
use innoscripta_banking_ledg.Domain.Result.{ok}
use innoscripta_banking_ledg.Domain.Account.{Account}
use innoscripta_banking_ledg.Platform.Reply.{done}
use innoscripta_banking_ledg.Platform.Querier.{Querier, IsQuerier}
use innoscripta_banking_ledg.Platform.Schema.{accounts_schema, FitsColumns}
use innoscripta_banking_ledg.Data.AccountRepository.{
  at_previous_version, overwrite, lock_for_update, update,
}
use innoscripta_banking_ledg.Data.AccountRepository.Locking.{lock_for_update_reads}
use innoscripta_banking_ledg.Processor.Validator.{is_known}
use innoscripta_banking_ledg.Processor.AccountManager.{
  locked, persisted, persist, change_and_persist, lock_and_update_account,
}
use innoscripta_banking_ledg.Processor.AccountManager.Change.{Allowed, moved, posted_account}
use innoscripta_banking_ledg.Processor.AccountManager.Rewriting.{
  version_range, change_account-Allowed, posted_schema, posted_columns, updated_rows, hit_rows,
}

-- Reads of the accounts come back with an answer, and so do updates that keep the constraints and the
-- limits of the columns.
pub record AccountsAnswer {B X : Type 0} (q : Querier B X) (i : IsQuerier q) : Type 0 where
  pub storable : String → Bool
  pub select_answers :
      (p : Account → Bool) (x : X) → (o : Option Account) × ((q.select_account p x).0 ≡ done o)
  pub update_answers :
      (p : Account → Bool) (f : Account → Account) (x : X)
      → accounts_schema (update_all p f (i.accounts x)) ≡ true
      → All (FitsColumns storable) (update_all p f (i.accounts x))
      → (n : ℕ) × ((q.update_accounts p f x).0 ≡ done n)

-- What the request needs: a known type, an account that allows it, a new balance in range, and a next
-- version that fits its column, an INTEGER.
pub record IsPostable (request : TransactionRequest) (a : Account) : Type 0 where
  pub known : is_known request.type ≡ true
  pub allowed : Allowed request a
  pub fits : IsInt64 (moved request.type request.amount a.balance)
  pub covered : leb_ℤ (pos 0) (moved request.type request.amount a.balance) ≡ true
  pub version : IsInt32 (a.version +ℤ pos 1)

module _ {B X : Type 0} (q : Querier B X) (i : IsQuerier q) (answers : AccountsAnswer q i)
    (request : TransactionRequest) (now : ℕ) (a : Account) where
  module _ (is : IsPostable request a) where
    update_succeeds :
        (x : X)
        → accounts_schema (i.accounts x) ≡ true
        → All (FitsColumns answers.storable) (i.accounts x)
        → find? (λ row. row.id == request.account_id) (i.accounts x) ≡ some a
        → (update q (posted_account request now a) x).0 ≡ ok tt
    unfolding update
    update_succeeds x valid columns found =
        let acc = posted_account request now a in
        let p = at_previous_version acc in
        let version = version_range a.version is.version in
        let written = updated_rows request now (i.accounts x) a valid found version in
        let (n, answered) =
          answers.update_answers p (overwrite acc) x
            (ap accounts_schema written
              ∙ posted_schema request now (i.accounts x) a valid found is.covered)
            (subst (All (FitsColumns answers.storable)) (sym written) (
              posted_columns request now (i.accounts x) a valid found answers.storable is.fits
                is.version columns)) in
        ground (
          arith,
          answered,
          i.update_accounts_counts p (overwrite acc) x,
          hit_rows request now (i.accounts x) a valid found version,
        )

    locked_found :
        (x : X)
        → find? (λ row. row.id == request.account_id) (i.accounts x) ≡ some a
        → (lock_for_update q request.account_id x).0 ≡ ok a
    unfolding lock_for_update
    locked_found x found = ground (
      arith,
      answers.select_answers (λ row. row.id == request.account_id) x,
      i.select_account_finds (λ row. row.id == request.account_id) x,
    )

    -- Over a database that answers, `LockAndUpdateAccount` comes back with the account of the request as
    -- the request leaves it, where the account is there, allows the request, and has room for it, and
    -- the rows fit their columns.
    pub lock_and_update_account_succeeds :
        (x : X)
        → accounts_schema (i.accounts x) ≡ true
        → All (FitsColumns answers.storable) (i.accounts x)
        → find? (λ row. row.id == request.account_id) (i.accounts x) ≡ some a
        → (lock_and_update_account q request now x).0 ≡ ok (posted_account request now a)
    unfolding lock_and_update_account change_and_persist locked persist persisted
    lock_and_update_account_succeeds x valid columns found =
        let x' = (lock_for_update q request.account_id x).1 in
        let (_, same, _) = lock_for_update_reads q i request.account_id x in
        rw
          (
            locked_found x found,
            locked,
            change_and_persist,
            change_account-Allowed request now a is.known is.allowed is.fits,
            persist,
          )
          (rw
            (update_succeeds x' (ap accounts_schema same ∙ valid)
              (subst (All (FitsColumns answers.storable)) (sym same) columns)
              (ap (find? (λ row. row.id == request.account_id)) same ∙ found))
            refl)
