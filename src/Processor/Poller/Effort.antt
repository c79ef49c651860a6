-- ===== src/Processor/Poller/Effort.antt =====
-- How many ticks a message of the outbox may still take.
use innoscripta_banking_ledg.Base.{
  ℕ, ℤ, pos, ◌+ℤ◌, ◌-◌, ◌+◌, ◌<◌, pos_part, neg_part, leb_ℤ, wrap64, wrap64_id, IsInt32,
  IsInt64-of_IsInt32, ◌≡◌, true, false, some, List, [], ◌∷◌, ◌==◌, if◌then◌else◌, find?, distinct,
  sum_of, update_all, update_all-id, find?_behind, Bool-cases, inl, inr, arith,
}
use innoscripta_banking_ledg.Domain.Outbox.{Message}
use innoscripta_banking_ledg.Data.OutboxRepository.{is_pending, with_attempt}

-- The failures until a message is given up, of which there is at least one.
abbrev pub attempts_left : ℤ → ℤ → ℕ
attempts_left limit attempts =
    let n = (pos_part limit + neg_part attempts) - (pos_part attempts + neg_part limit) in
    if n == 0 then 1 else n

module _ {B : Type 0} (limit : ℤ) where
  abbrev pub effort : Message B → ℕ
  effort m = if is_pending m.status then attempts_left limit m.attempts else 0

  -- The ticks that the pending messages may take one after the other.
  abbrev pub efforts : List (Message B) → ℕ
  efforts queue = sum_of effort queue

  -- The attempts of a pending message can be counted in their column.
  abbrev pub HasRoom : Message B → Type 0
  HasRoom m = is_pending m.status ≡ true → IsInt32 (m.attempts +ℤ pos 1)

  pub effort_pos : (m : Message B) → is_pending m.status ≡ true → 0 < effort m
  effort_pos m h = ground arith

  -- A failure that is not the last one.
  pub effort-with_attempt :
      (m : Message B) (now : ℕ)
      → is_pending m.status ≡ true
      → IsInt32 (m.attempts +ℤ pos 1)
      → leb_ℤ limit (wrap64 (m.attempts +ℤ pos 1)) ≡ false
      → effort (with_attempt now m) < effort m
  unfolding ◌+ℤ◌
  effort-with_attempt m now h room more =
      ground
        (arith, wrap64_id (m.attempts +ℤ pos 1) (IsInt64-of_IsInt32 (m.attempts +ℤ pos 1) room))

  pub room-with_attempt :
      (m : Message B) (now : ℕ)
      → IsInt32 limit
      → IsInt32 (m.attempts +ℤ pos 1)
      → leb_ℤ limit (wrap64 (m.attempts +ℤ pos 1)) ≡ false
      → HasRoom (with_attempt now m)
  unfolding ◌+ℤ◌
  room-with_attempt m now range room more = λ h.
      ground
        (arith, wrap64_id (m.attempts +ℤ pos 1) (IsInt64-of_IsInt32 (m.attempts +ℤ pos 1) room))

module _ {ℓ} {A : Type ℓ} (key : A → ℕ) (k : ℕ) (f : A → ℕ) (g : A → A) where
  -- A sum after the update of the row of a key.
  pub sum_of-update_all :
      (xs : List A) (a : A)
      → distinct (λ a b. key a == key b) xs ≡ true
      → find? (λ r. key r == k) xs ≡ some a
      → sum_of f (update_all (λ r. key r == k) g xs) + f a ≡ sum_of f xs + f (g a)
  sum_of-update_all [] a d h = ground arith
  sum_of-update_all (x ∷ xs) a d h = elim (Bool-cases (key x == k)) [
    | inl here ↦ ground (arith, find?_behind key x k xs, update_all-id (λ r. key r == k) g xs)
    | inr there ↦ ground (arith, sum_of-update_all xs a)
  ]
