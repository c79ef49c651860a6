-- ===== src/Base/Lists.antt =====
-- Lists under a Boolean test: the first hit, the updates of all hits or of the first, counts, sums.
use Prim.Native.Nat.{ℕ, suc, ◌+◌, ◌≤◌}
use mathlib.Core.Path.{◌≡◌, refl}
use mathlib.Core.Bool.{Bool, true, ◌&&◌, not}
use mathlib.Core.Option.{Option, none, some}
use mathlib.Core.List.{List, [], ◌∷◌, ◌++◌}
use native.Mathlib.Omega.{arith}
use innoscripta_banking_ledg.Base.Tests.{if◌then◌else◌}

module _ {ℓ} {A : Type ℓ} where
  abbrev pub length : List A → ℕ
  length [] = 0
  length (x ∷ xs) = suc (length xs)

  -- The first element that passes the test.
  abbrev pub find? : (A → Bool) → List A → Option A
  find? p [] = none
  find? p (x ∷ xs) = if p x then some x else find? p xs

  abbrev pub count : (A → Bool) → List A → ℕ
  count p [] = 0
  count p (x ∷ xs) = if p x then suc (count p xs) else count p xs

  -- `f` at every element that passes the test.
  abbrev pub update_all : (A → Bool) → (A → A) → List A → List A
  update_all p f [] = []
  update_all p f (x ∷ xs) = (if p x then f x else x) ∷ update_all p f xs

  -- `f` at the first element that passes the test.
  abbrev pub update_first : (A → Bool) → (A → A) → List A → List A
  update_first p f [] = []
  update_first p f (x ∷ xs) = if p x then f x ∷ xs else x ∷ update_first p f xs

  abbrev pub remove_all : (A → Bool) → List A → List A
  remove_all p [] = []
  remove_all p (x ∷ xs) = if p x then remove_all p xs else x ∷ remove_all p xs

  abbrev pub sum_of : (A → ℕ) → List A → ℕ
  sum_of f [] = 0
  sum_of f (x ∷ xs) = f x + sum_of f xs

  abbrev pub All {κ} : (A → Type κ) → List A → Type κ
  All P [] = Unit
  All P (x ∷ xs) = P x × All P xs

  -- A test of every element.
  abbrev pub all_of : (A → Bool) → List A → Bool
  all_of p [] = true
  all_of p (x ∷ xs) = p x && all_of p xs

  -- No two elements that `same` relates.
  abbrev pub distinct : (A → A → Bool) → List A → Bool
  distinct same [] = true
  distinct same (x ∷ xs) = all_of (λ y. not (same x y)) xs && distinct same xs

module _ {ℓ} {A : Type ℓ} (p : A → Bool) where
  pub find?-append :
      (xs ys : List A)
      → find? p (xs ++ ys) ≡ elim (find? p xs) [ none ↦ find? p ys | some x ↦ some x ]
  find?-append [] ys = refl
  find?-append (x ∷ xs) ys = ground (arith, find?-append xs ys)

  pub find?-passes : (xs : List A) (a : A) → find? p xs ≡ some a → p a ≡ true
  find?-passes [] a h = ground arith
  find?-passes (x ∷ xs) a h = ground (arith, find?-passes xs a)

  pub count-eq-zero : (xs : List A) → find? p xs ≡ none → count p xs ≡ 0
  count-eq-zero [] h = refl
  count-eq-zero (x ∷ xs) h = ground (arith, count-eq-zero xs)

  pub count_pos : (xs : List A) (a : A) → find? p xs ≡ some a → 1 ≤ count p xs
  count_pos [] a h = ground arith
  count_pos (x ∷ xs) a h = ground (arith, count_pos xs a)

  pub update_all-id : (f : A → A) (xs : List A) → find? p xs ≡ none → update_all p f xs ≡ xs
  update_all-id f [] h = refl
  update_all-id f (x ∷ xs) h = ground (arith, update_all-id f xs)

pub All-mono {ℓ κ} :
    {A : Type ℓ} (P Q : A → Type κ) → ((x : A) → P x → Q x) → (xs : List A) → All P xs → All Q xs
All-mono P Q f [] all = tt
All-mono P Q f (x ∷ xs) (px, all) = (f x px, All-mono P Q f xs all)
