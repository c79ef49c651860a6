-- ===== src/Data/OutboxRepository.antt =====
-- internal/data/postgres/outbox_repository.go, over a pool or over a transaction (`WithTx`).
pub mod Writes
use innoscripta_banking_ledg.Base.{
  ℕ, ℤ, pos, ◌+ℤ◌, Bool, true, false, Option, none, some, List, ◌==◌, if◌then◌else◌,
}
use innoscripta_banking_ledg.Domain.Shared.{OutboxStatus, pending}
use innoscripta_banking_ledg.Domain.Error.{external, wrapped, message_not_found}
use innoscripta_banking_ledg.Domain.Result.{Result, ok, err, Exec}
use innoscripta_banking_ledg.Domain.Outbox.{Message}
use innoscripta_banking_ledg.Platform.Reply.{Reply, done, fault}
use innoscripta_banking_ledg.Platform.Querier.{Querier}

-- `status = 'PENDING'`
abbrev pub is_pending : OutboxStatus → Bool
is_pending pending = true
is_pending _ = false

-- The columns of the INSERT: not `last_attempt_at`, which is NULL, and the sequence gives the ID.
abbrev pub inserted_row : {B : Type 0} → Message B → Message B
inserted_row m = record m { last_attempt_at = none }

-- `Scan(&message.ID)` writes the new number into the message.
abbrev pub with_id : {B : Type 0} → Message B → Reply ℕ → Result (Message B)
with_id m (done id) = ok (record m { id = id })
with_id m fault = err (wrapped external)

-- The loop over the rows: scanning a row fails like the query itself.
abbrev pub scanned : {B : Type 0} → Reply (List (Message B)) → Result (List (Message B))
scanned (done rows) = ok rows
scanned fault = err (wrapped external)

abbrev affected_or_not_found : ℕ → Reply ℕ → Result (Unit {0})
affected_or_not_found id (done rows) = if rows == 0 then err (message_not_found id) else ok tt
affected_or_not_found id fault = err (wrapped external)

-- The error names the ID 0.
abbrev message_or_not_found : {B : Type 0} → Reply (Option (Message B)) → Result (Message B)
message_or_not_found (done none) = err (message_not_found 0)
message_or_not_found (done (some m)) = ok m
message_or_not_found fault = err (wrapped external)

-- SET status = $1, last_attempt_at = $2
abbrev pub with_status : {B : Type 0} → OutboxStatus → ℕ → Message B → Message B
with_status status now row = record row { status = status; last_attempt_at = some now }

-- SET attempts = attempts + 1, last_attempt_at = $1
abbrev pub with_attempt : {B : Type 0} → ℕ → Message B → Message B
with_attempt now row = record row { attempts = row.attempts +ℤ pos 1; last_attempt_at = some now }

module _ {B Q : Type 0} (q : Querier B Q) where
  unfoldable pub create : Message B → Exec Q (Message B)
  create message s =
      let (r, s') = q.insert_message (inserted_row message) s in (with_id message r, s')

  unfoldable pub get_pending : ℤ → Exec Q (List (Message B))
  get_pending limit s =
      let (r, s') = q.select_messages (λ row. is_pending row.status) limit s in (scanned r, s')

  unfoldable pub update_status : ℕ → OutboxStatus → ℕ → Exec Q (Unit {0})
  update_status id status now s =
      let (r, s') = q.update_messages (λ row. row.id == id) (with_status status now) s in
      (affected_or_not_found id r, s')

  unfoldable pub increment_attempts : ℕ → ℕ → Exec Q (Unit {0})
  increment_attempts id now s =
      let (r, s') = q.update_messages (λ row. row.id == id) (with_attempt now) s in
      (affected_or_not_found id r, s')

  unfoldable pub delete : ℕ → Exec Q (Unit {0})
  delete id s =
      let (r, s') = q.delete_messages (λ row. row.id == id) s in (affected_or_not_found id r, s')

  unfoldable pub get_by_transaction_id : ℕ → Exec Q (Message B)
  get_by_transaction_id transaction_id s =
      let (r, s') = q.select_message (λ row. row.transaction_id == transaction_id) s in
      (message_or_not_found r, s')
