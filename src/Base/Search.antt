-- ===== src/Base/Search.antt =====
-- What an update of the row of a key does to a search by key.
use mathlib.Core.Path.{◌≡◌, refl}
use mathlib.Core.Bool.{false}
use mathlib.Core.Option.{some}
use mathlib.Core.List.{List, [], ◌∷◌}
use native.Mathlib.Omega.{arith}
use Prim.Native.Nat.{ℕ}
use innoscripta_banking_ledg.Base.Tests.{◌==◌}
use innoscripta_banking_ledg.Base.Lists.{find?, update_all}

module _ {ℓ} {A : Type ℓ} (key : A → ℕ) (k : ℕ) (g : A → A)
    (same : (a : A) → key (g a) ≡ key a) where
  pub find?-update_all :
      (xs : List A) (a : A)
      → find? (λ r. key r == k) xs ≡ some a
      → find? (λ r. key r == k) (update_all (λ r. key r == k) g xs) ≡ some (g a)
  find?-update_all [] a h = ground arith
  find?-update_all (x ∷ xs) a h = ground (arith, same x, find?-update_all xs a)

  pub find?-update_all_other :
      (l : ℕ)
      → (l == k) ≡ false
      → (xs : List A)
      → find? (λ r. key r == l) (update_all (λ r. key r == k) g xs) ≡ find? (λ r. key r == l) xs
  find?-update_all_other l ne [] = refl
  find?-update_all_other l ne (x ∷ xs) = ground (arith, same x, find?-update_all_other l ne xs)
