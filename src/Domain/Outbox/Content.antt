-- ===== src/Domain/Outbox/Content.antt =====
-- What of a message is fixed once it is queued: all but its status and its attempts.
use innoscripta_banking_ledg.Base.{
  ℕ, pos, ◌≡◌, ◌≢◌, refl, ◌∙◌, ap, true, Bool, ◌&&◌, not, none, List, [], ◌∷◌, ◌==◌, update_all,
  all_of, distinct, All, arith,
}
use mathlib.Core.List.{Memᴰ}
use innoscripta_banking_ledg.Domain.Shared.{pending}
use innoscripta_banking_ledg.Domain.Outbox.{Message}
use innoscripta_banking_ledg.Platform.Schema.{outbox_schema}

module _ {B : Type 0} where
  abbrev pub content : Message B → Message B
  content m = record m { status = pending; attempts = pos 0; last_attempt_at = none }

  abbrev pub contents : List (Message B) → List (Message B)
  contents [] = []
  contents (m ∷ queue) = content m ∷ contents queue

  pub contents-update_all :
      (p : Message B → Bool) (f : Message B → Message B)
      → ((m : Message B) → content (f m) ≡ content m)
      → (queue : List (Message B)) → contents (update_all p f queue) ≡ contents queue
  contents-update_all p f same [] = refl
  contents-update_all p f same (m ∷ queue) =
      grind (arith, same m, contents-update_all p f same queue)

  all_of-contents :
      (p : Message B → Bool)
      → ((m : Message B) → p (content m) ≡ p m)
      → (queue : List (Message B)) → all_of p (contents queue) ≡ all_of p queue
  all_of-contents p same [] = refl
  all_of-contents p same (m ∷ queue) = grind (arith, same m, all_of-contents p same queue)

  distinct-contents :
      (key : Message B → ℕ)
      → ((m : Message B) → key (content m) ≡ key m)
      → (queue : List (Message B))
      → distinct (λ a b. key a == key b) (contents queue) ≡ distinct (λ a b. key a == key b) queue
  distinct-contents key same [] = refl
  distinct-contents key same (m ∷ queue) =
      ap (λ b. b && distinct (λ a b. key a == key b) (contents queue))
        (all_of-contents (λ y. not (key (content m) == key y))
            (λ y. ap (λ k. not (key (content m) == k)) (same y)) queue
          ∙ ap (λ k. all_of (λ y. not (k == key y)) queue) (same m))
      ∙ ap (λ b. all_of (λ y. not (key m == key y)) queue && b) (distinct-contents key same queue)

  -- The constraints of the table are about contents.
  pub outbox_schema_of_contents :
      (before after : List (Message B))
      → contents after ≡ contents before
      → outbox_schema before ≡ true
      → outbox_schema after ≡ true
  outbox_schema_of_contents before after same h = grind (
    arith,
    same,
    distinct-contents (λ m. m.id) (λ m. refl) before,
    distinct-contents (λ m. m.id) (λ m. refl) after,
    distinct-contents (λ m. m.transaction_id) (λ m. refl) before,
    distinct-contents (λ m. m.transaction_id) (λ m. refl) after,
  )

  -- The rows under the ID of a message have its payload.
  abbrev pub Fits : Message B → List (Message B) → Type 0
  Fits m queue = All (λ row. (row.id == m.id) ≡ true → row.payload ≡ m.payload) queue

  -- Behind a row of the same ID there is none to check.
  Fits-others :
      (m x : Message B) (queue : List (Message B))
      → all_of (λ y. not (x.id == y.id)) queue ≡ true
      → m ≡ x
      → Fits m queue
  Fits-others m x [] d e = tt
  Fits-others m x (y ∷ queue) d e = (λ h. ground arith, Fits-others m x queue (ground arith) e)

  other_of_mem :
      (m x : Message B) (queue : List (Message B))
      → all_of (λ y. not (x.id == y.id)) queue ≡ true
      → Memᴰ m queue
      → (x.id == m.id) ≢ true
  other_of_mem m x [] d at h = elim at [ ]
  other_of_mem m x (y ∷ queue) d (Memᴰ.head e) h = ground arith
  other_of_mem m x (y ∷ queue) d (Memᴰ.tail at) h = other_of_mem m x queue (ground arith) at h

  pub Fits-of_mem :
      (m : Message B) (queue : List (Message B))
      → distinct (λ a b. a.id == b.id) queue ≡ true
      → Memᴰ m queue
      → Fits m queue
  Fits-of_mem m [] d at = elim at [ ]
  Fits-of_mem m (x ∷ queue) d (Memᴰ.head e) =
      (λ h. ground arith, Fits-others m x queue (ground arith) (ground arith))
  Fits-of_mem m (x ∷ queue) d (Memᴰ.tail at) = (
    λ h. absurd (other_of_mem m x queue (ground arith) at h),
    Fits-of_mem m queue (ground arith) at,
  )

  -- It stays so when contents do.
  pub Fits-of_contents :
      (m : Message B) (before after : List (Message B))
      → contents after ≡ contents before
      → Fits m before
      → Fits m after
  Fits-of_contents m [] [] same fits = tt
  Fits-of_contents m [] (y ∷ after) same fits = absurd (ground arith)
  Fits-of_contents m (x ∷ before) [] same fits = absurd (ground arith)
  Fits-of_contents m (x ∷ before) (y ∷ after) same (fx, fits) =
      (λ h. ground arith, Fits-of_contents m before after (ground arith) fits)
