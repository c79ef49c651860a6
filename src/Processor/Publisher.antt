-- ===== src/Processor/Publisher.antt =====
-- internal/transaction_processor/outbox_poller/ledger_publisher.go.
pub mod Success
pub mod Delivery
pub mod Completion
pub mod Moving
use innoscripta_banking_ledg.Base.{ℕ, Bool, true, false, Option, some, none, if◌then◌else◌}
use innoscripta_banking_ledg.Domain.Shared.{
  TransactionStatus, completed, processed, failed_to_publish,
}
use innoscripta_banking_ledg.Domain.Error.{external, wrapped, entry_not_found, errors_is}
use innoscripta_banking_ledg.Domain.Result.{Result, ok, err, Exec}
use innoscripta_banking_ledg.Domain.Ledger.{Entry}
use innoscripta_banking_ledg.Domain.Outbox.{Json, Message}
use innoscripta_banking_ledg.Platform.Querier.{Querier}
use innoscripta_banking_ledg.Platform.Collection.{Collection}
use innoscripta_banking_ledg.Platform.World.{World}
use innoscripta_banking_ledg.Data.LedgerRepository as LedgerRepository
use innoscripta_banking_ledg.Data.OutboxRepository as OutboxRepository

abbrev pub is_completed : TransactionStatus → Bool
is_completed completed = true
is_completed _ = false

-- The entry of the payload, as it is published.
abbrev pub completed_entry : ℕ → Entry → Entry
completed_entry now entry = record entry { status = completed; processed_at = some now }

-- `fmt.Errorf("...: %w", err)`
abbrev pub wrap_error : Result (Unit {0}) → Result (Unit {0})
wrap_error (ok _) = ok tt
wrap_error (err e) = err (wrapped e)

module _ {M : Type 0} (c : Collection M) where
  write_entry : Entry → ℕ → Result Entry → Exec M (Unit {0})
  write_entry entry now (ok existing) m =
      if is_completed existing.status
      then (ok tt, m)
      else (let (r, m') =
            LedgerRepository.update_status c entry.transaction_id completed "" now m in
          (wrap_error r, m'))
  write_entry entry now (err e) m =
      if errors_is e (entry_not_found 0)
      then (let (r, m') = LedgerRepository.create c entry m in (wrap_error r, m'))
      else (err (wrapped e), m)

  pub publish_entry : Entry → ℕ → Exec M (Unit {0})
  unfolding write_entry
  publish_entry entry now m =
      let (existing, m') = LedgerRepository.get_by_transaction_id c entry.transaction_id m in
      write_entry entry now existing m'

module _ {B P M : Type 0} (q : Querier B P) (c : Collection M) (json : Json B) where
  -- Only a message whose entry has been written is marked as processed.
  mark_published : Message B → ℕ → Result (Unit {0}) → Exec (World P M) (Unit {0})
  mark_published message now (err e) w = (err e, w)
  mark_published message now (ok _) w =
      let (r, p) = OutboxRepository.update_status q message.id processed now w.pg in
      (wrap_error r, record w { pg = p })

  publish_payload : Message B → ℕ → Option Entry → Exec (World P M) (Unit {0})
  unfolding publish_entry mark_published
  publish_payload message now none w =
      let (_, p) = OutboxRepository.update_status q message.id failed_to_publish now w.pg in
      (err (wrapped external), record w { pg = p })
  publish_payload message now (some entry) w =
      let (r, m) = publish_entry c (completed_entry now entry) now w.mongo in
      mark_published message now r (record w { mongo = m })

  unfoldable pub publish_to_ledger : Message B → ℕ → Exec (World P M) (Unit {0})
  unfolding publish_payload
  publish_to_ledger message now w = publish_payload message now (json.unmarshal message.payload) w
