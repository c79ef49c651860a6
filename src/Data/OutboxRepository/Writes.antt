-- ===== src/Data/OutboxRepository/Writes.antt =====
-- What the updates of the outbox repository leave in the table, on every reply of PostgreSQL.
use innoscripta_banking_ledg.Base.{ℕ, ◌≡◌, ◌⊎◌, inr, List, ◌==◌, update_all, arith}
use innoscripta_banking_ledg.Domain.Shared.{OutboxStatus}
use innoscripta_banking_ledg.Domain.Result.{Result, ok, err}
use innoscripta_banking_ledg.Domain.Outbox.{Message}
use innoscripta_banking_ledg.Platform.Querier.{Querier, IsQuerier}
use innoscripta_banking_ledg.Data.OutboxRepository.{
  update_status, increment_attempts, with_status, with_attempt,
}

-- The rows under an ID, updated.
abbrev pub stamped :
    {B : Type 0} → ℕ → (Message B → Message B) → List (Message B) → List (Message B)
stamped id f queue = update_all (λ row. row.id == id) f queue

-- Success is the update; after an error it may have come through.
abbrev pub Stamped :
    {B : Type 0}
    → ℕ
    → (Message B → Message B)
    → List (Message B)
    → List (Message B)
    → Result (Unit {0})
    → Type 0
Stamped id f before after (ok _) = after ≡ stamped id f before
Stamped id f before after (err _) = (after ≡ before) ⊎ (after ≡ stamped id f before)

pub Stamped-either :
    {B : Type 0} (id : ℕ) (f : Message B → Message B) (before after : List (Message B))
    (r : Result (Unit {0}))
    → Stamped id f before after r
    → (after ≡ before) ⊎ (after ≡ stamped id f before)
Stamped-either id f before after (ok _) s = inr s
Stamped-either id f before after (err _) s = s

module _ {B Q : Type 0} (q : Querier B Q) (i : IsQuerier q) where
  -- `UpdateStatus` on every reply of PostgreSQL: success sets the status and the time of the last
  -- attempt of the rows under the ID; after an error that update has been made or nothing has
  -- changed. The accounts are untouched.
  pub update_status_stamps :
      (id : ℕ) (status : OutboxStatus) (now : ℕ) (s : Q)
      → let (r, s') = update_status q id status now s in
        Stamped id (with_status status now) (i.messages s) (i.messages s') r
        × (i.accounts s' ≡ i.accounts s)
  unfolding update_status
  update_status_stamps id status now s = ground (
    arith,
    i.update_messages_writes (λ row. row.id == id) (with_status status now) s,
    i.update_messages_keeps (λ row. row.id == id) (with_status status now) s,
  )

  pub increment_attempts_stamps :
      (id : ℕ) (now : ℕ) (s : Q)
      → let (r, s') = increment_attempts q id now s in
        Stamped id (with_attempt now) (i.messages s) (i.messages s') r
        × (i.accounts s' ≡ i.accounts s)
  unfolding increment_attempts
  increment_attempts_stamps id now s = ground (
    arith,
    i.update_messages_writes (λ row. row.id == id) (with_attempt now) s,
    i.update_messages_keeps (λ row. row.id == id) (with_attempt now) s,
  )
