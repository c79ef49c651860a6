-- ===== src/Processor/AccountManager/Rewriting.antt =====
-- The rows of the accounts with a request in effect: what `Update` writes and what holds of it.
use innoscripta_banking_ledg.Base.{
  ℕ, ℤ, pos, negsuc, ◌+ℤ◌, ◌-ℤ◌, eqb_ℤ, leb_ℤ, IsInt32, IsInt64, IsInt64-of_IsInt32, String, sym,
  subst, wrap64, wrap64_id, ◌≡◌, refl, ◌∙◌, ap, Bool, Bool-cases, inl, inr, true, false, not, ◌&&◌,
  some, List, [], ◌∷◌, ◌==◌, str_eq, find?, find?-passes, all_of, distinct, count, update_all,
  update_all_at, All, All-find?, All-update_all, arith, eq_iff,
}
use innoscripta_banking_ledg.Domain.Shared.{TransactionRequest}
use innoscripta_banking_ledg.Domain.Result.{ok}
use innoscripta_banking_ledg.Domain.Account as AccountModel
use innoscripta_banking_ledg.Domain.Account.{Account}
use innoscripta_banking_ledg.Platform.Schema.{accounts_schema, FitsColumns}
use innoscripta_banking_ledg.Data.AccountRepository.{at_previous_version, overwrite}
use innoscripta_banking_ledg.Processor.Validator.{is_known}
use innoscripta_banking_ledg.Processor.AccountManager.{change_account}
use innoscripta_banking_ledg.Processor.AccountManager.Change.{Allowed, moved, posted_account}

-- A version that can be counted on.
pub version_range : (v : ℤ) → IsInt32 (v +ℤ pos 1) → IsInt64 v
unfolding ◌+ℤ◌
version_range (pos n) h = ground arith
version_range (negsuc n) h = ground arith

-- The version before the next one is the version.
version_back : (v : ℤ) → IsInt64 v → eqb_ℤ v (wrap64 (wrap64 (v +ℤ pos 1) -ℤ pos 1)) ≡ true
unfolding wrap64 ◌+ℤ◌ ◌-ℤ◌
version_back (pos n) h = ground arith
version_back (negsuc n) h = ground arith

-- What is allowed and fits is done.
pub change_account-Allowed :
    (request : TransactionRequest) (now : ℕ) (a : Account)
    → is_known request.type ≡ true
    → Allowed request a
    → IsInt64 (moved request.type request.amount a.balance)
    → change_account request now a ≡ ok (posted_account request now a)
unfolding change_account AccountModel.deposit AccountModel.withdraw
change_account-Allowed request now a known allowed fits = ground (
  arith,
  eq_iff a.currency request.currency,
  allowed.currency,
  allowed.positive,
  allowed.covered,
  wrap64_id (moved request.type request.amount a.balance) fits,
)

module _ (p : Account → Bool) (f : Account → Account) where
  all_of-update_all_same :
      (t : Account → Bool)
      → ((a : Account) → t (f a) ≡ t a)
      → (rows : List Account) → all_of t (update_all p f rows) ≡ all_of t rows
  all_of-update_all_same t same [] = refl
  all_of-update_all_same t same (a ∷ rows) =
      grind (arith, same a, all_of-update_all_same t same rows)

  distinct-update_all :
      (eq : Account → Account → Bool)
      → ((a b : Account) → eq (f a) b ≡ eq a b)
      → ((a b : Account) → eq a (f b) ≡ eq a b)
      → (rows : List Account) → distinct eq (update_all p f rows) ≡ distinct eq rows
  distinct-update_all eq left right [] = refl
  distinct-update_all eq left right (a ∷ rows) = elim (Bool-cases (p a)) [
    | inl here ↦
        rw (here, update_all, distinct)
          (λ i.
            all_of (λ y. not (left a y i)) (update_all p f rows)
            && distinct-update_all eq left right rows i)
        ∙ ap (λ t. t && distinct eq rows)
            (all_of-update_all_same (λ y. not (eq a y)) (λ b. ap not (right a b)) rows)
    | inr there ↦
        rw (there, update_all, distinct)
          (λ i.
            all_of-update_all_same (λ y. not (eq a y)) (λ b. ap not (right a b)) rows i
            && distinct-update_all eq left right rows i)
  ]

all_of-All :
    (t : Account → Bool) (rows : List Account) → all_of t rows ≡ true → All (λ a. t a ≡ true) rows
all_of-All t [] h = tt
all_of-All t (a ∷ rows) h = (ground arith, all_of-All t rows (ground arith))

All-all_of :
    (t : Account → Bool) (rows : List Account) → All (λ a. t a ≡ true) rows → all_of t rows ≡ true
All-all_of t [] all = refl
All-all_of t (a ∷ rows) (ta, all) = ground (arith, All-all_of t rows all)

module _ (request : TransactionRequest) (now : ℕ) (rows : List Account) (a : Account)
    (valid : accounts_schema rows ≡ true)
    (found : find? (λ row. row.id == request.account_id) rows ≡ some a) where
  nonnegative_rows : all_of (λ row. leb_ℤ (pos 0) row.balance) rows ≡ true
  nonnegative_rows = ground arith

  distinct_rows : distinct (λ (x y : Account). x.id == y.id) rows ≡ true
  distinct_rows = ground arith

  -- The rows with the request in effect satisfy the constraints, if the new balance does.
  pub posted_schema :
      leb_ℤ (pos 0) (moved request.type request.amount a.balance) ≡ true
      → accounts_schema
          (update_all (λ row. row.id == request.account_id) (posted_account request now) rows)
        ≡ true
  posted_schema covered =
      let p : Account → Bool = λ row. row.id == request.account_id in
      let g = posted_account request now in
      ground (
        arith,
        All-all_of (λ row. leb_ℤ (pos 0) row.balance) (update_all p g rows)
            (All-update_all (λ row. row.id) request.account_id g
              (λ row. leb_ℤ (pos 0) row.balance ≡ true) rows a distinct_rows found
              (all_of-All (λ row. leb_ℤ (pos 0) row.balance) rows nonnegative_rows) covered),
        distinct-update_all p g (λ x y. x.id == y.id) (λ x y. refl) (λ x y. refl) rows,
        distinct-update_all p g (λ x y. str_eq x.national_id y.national_id) (λ x y. refl)
            (λ x y. refl) rows,
      )

  -- So do the limits of the columns.
  pub posted_columns :
      (storable : String → Bool)
      → IsInt64 (moved request.type request.amount a.balance)
      → IsInt32 (a.version +ℤ pos 1)
      → All (FitsColumns storable) rows
      → All
          (FitsColumns storable)
          (update_all (λ row. row.id == request.account_id) (posted_account request now) rows)
  posted_columns storable fits version columns =
      let is =
        All-find? (FitsColumns storable) (λ row. row.id == request.account_id) rows a found
          columns in
      All-update_all (λ row. row.id) request.account_id (posted_account request now)
        (FitsColumns storable) rows a distinct_rows found columns
        (record {
          owner_name = is.owner_name;
          national_id = is.national_id;
          currency = is.currency;
          balance = fits;
          version =
              subst IsInt32
                (sym (
                  wrap64_id (a.version +ℤ pos 1) (IsInt64-of_IsInt32 (a.version +ℤ pos 1) version)))
                version;
        })

  module _ (version : IsInt64 a.version) where
    previous_version : at_previous_version (posted_account request now a) a ≡ true
    previous_version = ground (arith, version_back a.version version)

    under_id :
        (row : Account)
        → at_previous_version (posted_account request now a) row ≡ true
        → (row.id == request.account_id) ≡ true
    under_id row h =
        ground (arith, find?-passes (λ (r : Account). r.id == request.account_id) rows a found)

    -- `Update` writes what the request makes of the rows.
    pub updated_rows :
        update_all
          (at_previous_version (posted_account request now a))
          (overwrite (posted_account request now a))
          rows
        ≡ update_all (λ row. row.id == request.account_id) (posted_account request now) rows
    updated_rows =
        update_all_at (λ row. row.id) request.account_id
          (at_previous_version (posted_account request now a))
          (overwrite (posted_account request now a)) (posted_account request now) under_id rows a
          distinct_rows found previous_version refl

    pub hit_rows : (count (at_previous_version (posted_account request now a)) rows == 0) ≡ false
    hit_rows = ground (arith, count_hit rows found)
      where
        count_hit :
            (xs : List Account)
            → find? (λ row. row.id == request.account_id) xs ≡ some a
            → (count (at_previous_version (posted_account request now a)) xs == 0) ≡ false
        count_hit [] h = ground arith
        count_hit (x ∷ xs) h = ground (arith, previous_version, count_hit xs)
