-- ===== src/Processor/AccountManager/Posting.antt =====
-- What `LockAndUpdateAccount` has written when it succeeds: one row, exactly.
use innoscripta_banking_ledg.Base.{
  ℕ, pos, leb_ℤ, IsInt64, wrap64-IsInt64, ◌≡◌, ◌≢◌, refl, ◌∙◌, subst, true, some, List, ◌==◌, find?,
  find?-passes, all_of, distinct, count, update_all, All, All-find?, all_of-update_all,
  all_of-find?, update_all_at, passes_at, arith,
}
use innoscripta_banking_ledg.Domain.Shared.{TransactionRequest}
use innoscripta_banking_ledg.Domain.Result.{ok}
use innoscripta_banking_ledg.Domain.Account.{Account}
use innoscripta_banking_ledg.Platform.Schema.{accounts_schema}
use innoscripta_banking_ledg.Data.AccountRepository.{at_previous_version, overwrite}
use innoscripta_banking_ledg.Processor.Validator.{is_known}
use innoscripta_banking_ledg.Processor.AccountManager.{change_account}
use innoscripta_banking_ledg.Processor.AccountManager.Change.{
  Allowed, moved, posted_account, change_account_ok, moved_exact,
}

-- The rows before and after a request whose effect is allowed: the balance of its account has moved
-- by its amount, the version has gone up, and no other row has changed.
pub record Posting (request : TransactionRequest) (now : ℕ) (before after : List Account)
    : Type 0 where
  pub account : Account
  pub found : find? (λ row. row.id == request.account_id) before ≡ some account
  pub allowed : Allowed request account
  pub fits : IsInt64 (moved request.type request.amount account.balance)
  pub row :
      after ≡ update_all (λ row. row.id == request.account_id) (posted_account request now) before
  pub schema : accounts_schema after ≡ true

module _ (request : TransactionRequest) (now : ℕ) (known : is_known request.type ≡ true)
    (amount : IsInt64 request.amount) where
  module _ (before : List Account) (a a' : Account) (valid : accounts_schema before ≡ true)
      (found : find? (λ row. row.id == request.account_id) before ≡ some a)
      (changed : change_account request now a ≡ ok a')
      (hit : count (at_previous_version a') before ≢ 0) where
    same_id : (a'.id == request.account_id) ≡ true
    same_id = ground (
      arith,
      change_account_ok request now a a' known changed,
      find?-passes (λ (row : Account). row.id == request.account_id) before a found,
    )

    distinct_ids : distinct (λ (x y : Account). x.id == y.id) before ≡ true
    distinct_ids = ground arith

    at_previous_version_id :
        (row : Account) → at_previous_version a' row ≡ true → (row.id == request.account_id) ≡ true
    at_previous_version_id row h = ground (arith, same_id)

    -- The `WHERE` of `Update` picks the row of the account, so any way to write that row will do.
    update_row :
        (g : Account → Account)
        → overwrite a' a ≡ g a
        → update_all (at_previous_version a') (overwrite a') before
          ≡ update_all (λ row. row.id == request.account_id) g before
    update_row g e =
        update_all_at (λ row. row.id) request.account_id (at_previous_version a') (overwrite a') g
          at_previous_version_id before a distinct_ids found
          (passes_at (λ row. row.id) request.account_id (at_previous_version a')
            at_previous_version_id before a distinct_ids found hit)
          e

    module _ (range : All (λ row. IsInt64 row.balance) before) (after : List Account)
        (written : after ≡ update_all (at_previous_version a') (overwrite a') before)
        (still_valid : accounts_schema after ≡ true) where
      new_balance_nonneg : leb_ℤ (pos 0) a'.balance ≡ true
      new_balance_nonneg =
          all_of-update_all (λ row. row.id == request.account_id) (λ row. leb_ℤ (pos 0) row.balance)
            (overwrite a') before a found
            (subst (λ rows. all_of (λ row. leb_ℤ (pos 0) row.balance) rows ≡ true)
              (written ∙ update_row (overwrite a') refl) (ground arith))

      new_balance : a'.balance ≡ moved request.type request.amount a.balance
      new_balance = ground (
        arith,
        change_account_ok request now a a' known changed,
        new_balance_nonneg,
        All-find? (λ row. IsInt64 row.balance) (λ row. row.id == request.account_id) before a found
            range,
        all_of-find? (λ row. row.id == request.account_id) (λ row. leb_ℤ (pos 0) row.balance)
            (λ row. row) before a found (ground arith),
        moved_exact request.type request.amount a.balance amount,
      )

      -- An overwritten row stands for the changed account, with its balance unwrapped.
      pub Posting-of_update : Posting request now before after
      Posting-of_update = record {
        account = a;
        found = found;
        allowed = (change_account_ok request now a a' known changed).0;
        fits = ground (
          arith,
          new_balance,
          change_account_ok request now a a' known changed,
          wrap64-IsInt64 (moved request.type request.amount a.balance),
        );
        row =
            written
            ∙ update_row (posted_account request now)
                (ground (arith, new_balance, change_account_ok request now a a' known changed));
        schema = still_valid;
      }
