-- ===== src/Platform/Reply.antt =====
-- What a call of a driver comes back with, and what its documentation promises of the rows.
use innoscripta_banking_ledg.Base.{
  ℕ, ℤ, pos_part, ◌≤◌, ◌≡◌, ◌⊎◌, Bool, true, Option, List, All, length, find?,
}
use mathlib.Core.List.{Memᴰ}

-- `fault` is any error: a lost connection, a violated constraint, a timeout.
pub data Reply {ℓ} (A : Type ℓ) : Type ℓ where
  done : A → Reply A
  fault : Reply A

-- A query for one row answers with the first that satisfies its condition, or with none.
abbrev pub Found {ℓ} : {A : Type ℓ} → (A → Bool) → List A → Reply (Option A) → Type ℓ
Found p rows (done o) = o ≡ find? p rows
Found p rows fault = Unit

-- A write that is done has taken effect, and the constraints hold of what it left. After a fault
-- nobody knows whether it has: the answer may be what got lost.
abbrev pub Wrote : {A R : Type 0} → (List R → Bool) → List R → List R → Reply A → List R → Type 0
Wrote schema before intended (done _) after = (after ≡ intended) × (schema after ≡ true)
Wrote schema before intended fault after =
    (after ≡ before) ⊎ ((after ≡ intended) × (schema after ≡ true))

-- The number of rows that a write reports.
abbrev pub Affected : ℕ → Reply ℕ → Type 0
Affected n (done k) = k ≡ n
Affected n fault = Unit

-- Rows of the table, that satisfy the condition, and no more of them than the limit.
abbrev pub Batch : {A : Type 0} → (A → Bool) → ℤ → List A → Reply (List A) → Type 0
Batch p limit rows (done found) =
    (length found ≤ pos_part limit) × All (λ r. (p r ≡ true) × Memᴰ r rows) found
Batch p limit rows fault = Unit
