-- ===== src/Gateway/TransactionService/Pages.antt =====
-- The offsets of the pages that `GetTransactionsByAccountID` asks for.
use innoscripta_banking_ledg.Base.{
  ℕ, zero, suc, ◌+◌, ◌*◌, ◌≤◌, ◌<◌, pos, ◌-ℤ◌, ◌*ℤ◌, int64_half, wrap64, wrap64_id, ◌≡◌, ◌∙◌, ap,
  arith,
}
use innoscripta_banking_ledg.Gateway.TransactionService.{page_offset}

suc-mul : (n k : ℕ) → suc n * k ≡ k + n * k
suc-mul n k = omega arith

le_mul : (n k : ℕ) → 1 ≤ k → n ≤ n * k
le_mul zero k h = omega arith
le_mul (suc n) k h = ground (arith, suc-mul n k, le_mul n k h)

less_one : (n : ℕ) → pos (suc n) -ℤ pos 1 ≡ pos n
unfolding ◌-ℤ◌
less_one n = ground arith

times_pos : (n k : ℕ) → pos n *ℤ pos k ≡ pos (n * k)
unfolding ◌*ℤ◌
times_pos n k = ground arith

page_offset_exact :
    (n k : ℕ) → 1 ≤ k → n * k < int64_half → page_offset (pos (suc n)) (pos k) ≡ pos (n * k)
unfolding page_offset
page_offset_exact n k h fits =
    ap (λ z. wrap64 (wrap64 z *ℤ pos k)) (less_one n)
    ∙ ap (λ z. wrap64 (z *ℤ pos k)) (wrap64_id (pos n) (ground (arith, le_mul n k h)))
    ∙ ap wrap64 (times_pos n k)
    ∙ wrap64_id (pos (n * k)) (ground arith)

-- Pages follow one another without a gap: page n + 1 begins behind n whole pages, and the page after
-- it where it ends, as long as that offset fits 64 bits.
pub page_offset_next :
    (n per_page : ℕ)
    → 1 ≤ per_page
    → suc n * per_page < int64_half
    → (page_offset (pos (suc n)) (pos per_page) ≡ pos (n * per_page))
      × (page_offset (pos (suc (suc n))) (pos per_page) ≡ pos (n * per_page + per_page))
page_offset_next n per_page h fits = (
  page_offset_exact n per_page h (ground (arith, suc-mul n per_page)),
  page_offset_exact (suc n) per_page h fits ∙ ap pos (ground (arith, suc-mul n per_page)),
)
