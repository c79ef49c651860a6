-- ===== src/Gateway/Http/Pagination.antt =====
-- How many pages a listing has.
use innoscripta_banking_ledg.Base.{
  ℕ, suc, ◌+◌, ◌*◌, ◌/◌, ◌%◌, ◌≤◌, ◌<◌, pos, ◌+ℤ◌, ltb, int64_half, wrap64, wrap64_id, ◌≡◌, ◌∙◌, ap,
  inl, inr, some, Bool-cases, arith,
}
use innoscripta_banking_ledg.Gateway.Http.{total_pages}

division : (n k : ℕ) → (n ≡ n / suc k * suc k + n % suc k) × (n % suc k < suc k)
division n k = grind arith

plus_one : (n : ℕ) → pos n +ℤ pos 1 ≡ pos (suc n)
unfolding ◌+ℤ◌
plus_one n = ground arith

mul_mono : (m n k : ℕ) → m ≤ n → m * k ≤ n * k
mul_mono m n k h = grind arith

suc-mul : (n k : ℕ) → suc n * k ≡ n * k + k
suc-mul n k = omega arith

le_mul : (n k : ℕ) → n ≤ n * suc k
le_mul n k = grind arith

one_more :
    (total k : ℕ)
    → total / suc k + 1 < int64_half
    → wrap64 (pos (total / suc k) +ℤ pos 1) ≡ pos (suc (total / suc k))
one_more total k h =
    ap wrap64 (plus_one (total / suc k)) ∙ wrap64_id (pos (suc (total / suc k))) (ground arith)

-- The number of pages that `n` items need.
pub Pages : ℕ → ℕ → ℕ → Type 0
Pages n size pages = (n ≤ pages * size) × ((m : ℕ) → m < pages → m * size < n)

-- The pages of `NewPaginatedResponse` hold all items, and no page is empty: with page sizes from 1 to
-- 100 and a total that fits 64 bits there is no panic, the pages have room for the total, and all
-- but the last have not.
pub total_pages_fit :
    (total k : ℕ)
    → k < 100
    → total < int64_half
    → (n : ℕ) × (total_pages (pos total) (pos (suc k)) ≡ some (pos n)) × Pages total (suc k) n
unfolding total_pages Pages
total_pages_fit total k small fits = elim (Bool-cases (ltb 0 (total % suc k))) [
  | inl more ↦ (
    suc (total / suc k),
    ground (arith, one_more total k, division total k, le_mul (total / suc k) k),
    (
      ground (arith, division total k, suc-mul (total / suc k) (suc k)),
      λ m h. ground (arith, division total k, mul_mono m (total / suc k) (suc k)),
    ),
  )
  | inr full ↦ (
    total / suc k,
    ground arith,
    (
      ground (arith, division total k),
      λ m h.
          ground
            (arith, division total k, mul_mono (suc m) (total / suc k) (suc k), suc-mul m (suc k)),
    ),
  )
]
