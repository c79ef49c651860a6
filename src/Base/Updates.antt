-- ===== src/Base/Updates.antt =====
-- What an update of the first element that passes a test does to a search.
use mathlib.Core.Path.{◌≡◌, refl}
use mathlib.Core.Bool.{Bool, true, false}
use mathlib.Core.Option.{some, none}
use mathlib.Core.List.{List, [], ◌∷◌, ◌++◌}
use native.Mathlib.Omega.{arith}
use innoscripta_banking_ledg.Base.Lists.{find?, update_first}

module _ {ℓ} {A : Type ℓ} (p : A → Bool) (f : A → A) where
  -- Nothing passes: nothing changes.
  pub update_first-id : (xs : List A) → find? p xs ≡ none → update_first p f xs ≡ xs
  update_first-id [] h = refl
  update_first-id (x ∷ xs) h = ground (arith, update_first-id xs)

  -- The search finds the updated element, if that still passes.
  pub find?-update_first :
      (xs : List A) (a : A)
      → find? p xs ≡ some a
      → p (f a) ≡ true
      → find? p (update_first p f xs) ≡ some (f a)
  find?-update_first [] a h e = ground arith
  find?-update_first (x ∷ xs) a h e = ground (arith, find?-update_first xs a)

  -- A search for others finds what it found.
  pub find?-update_first_other :
      (q : A → Bool)
      → ((x : A) → p x ≡ true → q x ≡ false)
      → ((x : A) → p x ≡ true → q (f x) ≡ false)
      → (xs : List A) → find? q (update_first p f xs) ≡ find? q xs
  find?-update_first_other q was is [] = refl
  find?-update_first_other q was is (x ∷ xs) =
      ground (arith, was x, is x, find?-update_first_other q was is xs)

module _ {ℓ} {A : Type ℓ} (p : A → Bool) where
  pub find?-append_new :
      (xs : List A) (a : A) → find? p xs ≡ none → p a ≡ true → find? p (xs ++ a ∷ []) ≡ some a
  find?-append_new [] a h e = ground arith
  find?-append_new (x ∷ xs) a h e = ground (arith, find?-append_new xs a)

  pub find?-append_other : (xs : List A) (a : A) → p a ≡ false → find? p (xs ++ a ∷ []) ≡ find? p xs
  find?-append_other [] a e = ground arith
  find?-append_other (x ∷ xs) a e = ground (arith, find?-append_other xs a)
