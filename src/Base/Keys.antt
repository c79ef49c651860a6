-- ===== src/Base/Keys.antt =====
-- Rows under a numeric key that no two of them share.
use mathlib.Core.Path.{◌≡◌, refl, sym, subst}
use mathlib.Core.Bool.{Bool, true, not}
use mathlib.Core.Logic.{◌≢◌, inl, inr}
use mathlib.Core.Option.{none, some}
use mathlib.Core.List.{List, [], ◌∷◌, ◌++◌}
use native.Mathlib.Omega.{arith}
use Prim.Native.Nat.{ℕ}
use innoscripta_banking_ledg.Base.Tests.{◌==◌, Bool-cases}
use innoscripta_banking_ledg.Base.Lists.{
  All, find?, count, update_all, all_of, distinct, update_all-id, count-eq-zero,
}

module _ {ℓ} {A : Type ℓ} (key : A → ℕ) where
  -- Behind a row of key `k` no other has that key.
  pub find?_behind :
      (x : A) (k : ℕ) (xs : List A)
      → all_of (λ y. not (key x == key y)) xs ≡ true
      → (key x == k) ≡ true
      → find? (λ r. key r == k) xs ≡ none
  find?_behind x k [] h e = refl
  find?_behind x k (y ∷ xs) h e = ground (arith, find?_behind x k xs)

  -- A row that joins distinct rows has a key of its own.
  pub find?_of_append :
      (xs : List A) (m : A)
      → distinct (λ a b. key a == key b) (xs ++ m ∷ []) ≡ true
      → find? (λ r. key r == key m) xs ≡ none
  find?_of_append [] m h = refl
  find?_of_append (x ∷ xs) m h = ground (arith, find?_of_append xs m, fresh_last x xs)
    where
      fresh_last :
          (x : A) (ys : List A)
          → all_of (λ y. not (key x == key y)) (ys ++ m ∷ []) ≡ true
          → not (key x == key m) ≡ true
      fresh_last x [] h = ground arith
      fresh_last x (y ∷ ys) h = ground (arith, fresh_last x ys)

module _ {ℓ} {A : Type ℓ} (p k : A → Bool) where
  find?_narrower :
      ((r : A) → p r ≡ true → k r ≡ true) → (xs : List A) → find? k xs ≡ none → find? p xs ≡ none
  find?_narrower sub [] h = refl
  find?_narrower sub (x ∷ xs) h = ground (arith, sub x, find?_narrower sub xs)

module _ {ℓ} {A : Type ℓ} (key : A → ℕ) (k : ℕ) (p : A → Bool) (f g : A → A) where
  -- An update of the rows that pass `p`, all of them under the key `k`, is one of the row of that key.
  pub update_all_at :
      ((r : A) → p r ≡ true → (key r == k) ≡ true)
      → (xs : List A) (a : A) → distinct (λ a b. key a == key b) xs ≡ true
      → find? (λ r. key r == k) xs ≡ some a
      → p a ≡ true
      → f a ≡ g a
      → update_all p f xs ≡ update_all (λ r. key r == k) g xs
  update_all_at sub [] a d h e fg = refl
  update_all_at sub (x ∷ xs) a d h e fg = elim (Bool-cases (key x == k)) [
    | inl here ↦ ground (
      arith,
      find?_behind key x k xs,
      find?_narrower p (λ r. key r == k) sub xs,
      update_all-id p f xs,
      update_all-id (λ r. key r == k) g xs,
    )
    | inr there ↦ ground (arith, sub x, update_all_at sub xs a)
  ]

module _ {ℓ} {A : Type ℓ} (key : A → ℕ) (k : ℕ) (p : A → Bool) where
  -- If some row passes `p`, it is the row of the key.
  pub passes_at :
      ((r : A) → p r ≡ true → (key r == k) ≡ true)
      → (xs : List A) (a : A) → distinct (λ a b. key a == key b) xs ≡ true
      → find? (λ r. key r == k) xs ≡ some a
      → count p xs ≢ 0
      → p a ≡ true
  passes_at sub [] a d h n = ground arith
  passes_at sub (x ∷ xs) a d h n = elim (Bool-cases (key x == k)) [
    | inl here ↦ ground (
      arith,
      find?_behind key x k xs,
      find?_narrower p (λ r. key r == k) sub xs,
      count-eq-zero p xs,
    )
    | inr there ↦ ground (arith, sub x, passes_at sub xs a)
  ]

module _ {ℓ} {A : Type ℓ} (k t : A → Bool) (g : A → A) where
  -- What holds of every row after an update holds of the row that was found before it.
  pub all_of-update_all :
      (xs : List A) (a : A)
      → find? k xs ≡ some a
      → all_of t (update_all k g xs) ≡ true
      → t (g a) ≡ true
  all_of-update_all [] a h e = ground arith
  all_of-update_all (x ∷ xs) a h e = ground (arith, all_of-update_all xs a)

  pub all_of-find? : (xs : List A) (a : A) → find? k xs ≡ some a → all_of t xs ≡ true → t a ≡ true
  all_of-find? [] a h e = ground arith
  all_of-find? (x ∷ xs) a h e = ground (arith, all_of-find? xs a)

pub All-find? {ℓ κ} :
    {A : Type ℓ} (P : A → Type κ) (k : A → Bool) (xs : List A) (a : A)
    → find? k xs ≡ some a
    → All P xs
    → P a
All-find? P k [] a h e = ground arith
All-find? P k (x ∷ xs) a h (px, e) = elim (Bool-cases (k x)) [
  | inl here ↦ subst P (ground arith) px
  | inr there ↦ All-find? P k xs a (ground arith) e
]

module _ {ℓ} {A : Type ℓ} (key : A → ℕ) (k : ℕ) (g : A → A) where
  -- An update of the row of a key keeps what holds of every row, if it holds of the new row.
  pub All-update_all {κ} :
      (P : A → Type κ) (xs : List A) (a : A)
      → distinct (λ a b. key a == key b) xs ≡ true
      → find? (λ r. key r == k) xs ≡ some a
      → All P xs
      → P (g a)
      → All P (update_all (λ r. key r == k) g xs)
  All-update_all P [] a d h all new = tt
  All-update_all P (x ∷ xs) a d h (px, all) new = elim (Bool-cases (key x == k)) [
    | inl here ↦
        rw
          (here, update_all-id (λ r. key r == k) g xs (find?_behind key x k xs (ground arith) here))
          (subst (λ y. P (g y)) (sym (ground arith)) new, all)
    | inr there ↦ rw there (px, All-update_all P xs a (ground arith) (ground arith) all new)
  ]
