-- ===== src/Processor/Publisher/Success.antt =====
-- `PublishToLedger` over databases that answer: it comes to its end.
use innoscripta_banking_ledg.Base.{
  true, ℕ, ◌≡◌, inl, inr, ◌∙◌, ap, Option-cases, some, ◌==◌, find?, count_pos, arith,
}
use innoscripta_banking_ledg.Domain.Shared.{completed, processed, OutboxStatus}
use innoscripta_banking_ledg.Domain.Error.{errors_is}
use innoscripta_banking_ledg.Domain.Result.{ok}
use innoscripta_banking_ledg.Domain.Ledger.{Entry}
use innoscripta_banking_ledg.Domain.Outbox.{Json, Message}
use innoscripta_banking_ledg.Platform.Reply.{done}
use innoscripta_banking_ledg.Platform.Querier.{Querier, IsQuerier}
use innoscripta_banking_ledg.Platform.Collection.{Collection, IsCollection}
use innoscripta_banking_ledg.Platform.Schema.{outbox_schema}
use innoscripta_banking_ledg.Platform.World.{World}
use innoscripta_banking_ledg.Data.OutboxRepository.{with_status}
use innoscripta_banking_ledg.Data.OutboxRepository as OutboxRepository
use innoscripta_banking_ledg.Data.LedgerRepository.{get_by_transaction_id}
use innoscripta_banking_ledg.Data.LedgerRepository.Writes.{get_by_transaction_id_reads}
use innoscripta_banking_ledg.Data.LedgerRepository.Entries.{entry_of}
use innoscripta_banking_ledg.Data.LedgerRepository.Answering.{
  Answers, get_missing, get_found, update_status_succeeds, create_succeeds,
}
use innoscripta_banking_ledg.Processor.Publisher.{
  wrap_error, completed_entry, write_entry, publish_entry, mark_published, publish_payload,
  publish_to_ledger,
}

-- The updates of a status in an outbox that satisfies its constraints come back with an answer.
pub record UpdatesAnswer {B P : Type 0} (q : Querier B P) (i : IsQuerier q) : Type 0 where
  pub status_answers :
      (id : ℕ) (status : OutboxStatus) (now : ℕ) (s : P)
      → outbox_schema (i.messages s) ≡ true
      → (n : ℕ) × ((q.update_messages (λ row. row.id == id) (with_status status now) s).0 ≡ done n)

module _ {B P : Type 0} (q : Querier B P) (i : IsQuerier q) (updates : UpdatesAnswer q i)
    (now : ℕ) where
  pub mark_succeeds :
      (id : ℕ) (status : OutboxStatus) (s : P) (row : Message B)
      → find? (λ (r : Message B). r.id == id) (i.messages s) ≡ some row
      → outbox_schema (i.messages s) ≡ true
      → (OutboxRepository.update_status q id status now s).0 ≡ ok tt
  unfolding OutboxRepository.update_status
  mark_succeeds id status s row h schema = ground (
    arith,
    updates.status_answers id status now s schema,
    i.update_messages_counts (λ r. r.id == id) (with_status status now) s,
    count_pos (λ (r : Message B). r.id == id) (i.messages s) row h,
  )

module _ {B P M : Type 0} (q : Querier B P) (i : IsQuerier q) (c : Collection M)
    (j : IsCollection c) (json : Json B) (answers : Answers c) (updates : UpdatesAnswer q i)
    (now : ℕ) where
  write_succeeds :
      (entry existing : Entry) (m : M)
      → entry_of entry.transaction_id (j.entries m) ≡ some existing
      → (write_entry c entry now (ok existing) m).0 ≡ ok tt
  unfolding write_entry
  write_succeeds entry existing m found = ground (
    arith,
    update_status_succeeds c j answers now entry.transaction_id completed "" m existing found,
  )

  publish_entry_succeeds : (entry : Entry) (m : M) → (publish_entry c entry now m).0 ≡ ok tt
  unfolding publish_entry write_entry errors_is
  publish_entry_succeeds entry m =
      let m' = (get_by_transaction_id c entry.transaction_id m).1 in
      let (_, same) = get_by_transaction_id_reads c j entry.transaction_id m in
      elim (Option-cases (entry_of entry.transaction_id (j.entries m))) [
        | inl missing ↦ rw (get_missing c j answers now entry.transaction_id m missing) (
            ap wrap_error (
              create_succeeds c j answers now entry m'
                (ap (entry_of entry.transaction_id) same ∙ missing)))
        | inr (e, found) ↦
            rw (get_found c j answers now entry.transaction_id m e found)
              (write_succeeds entry e m' (ap (entry_of entry.transaction_id) same ∙ found))
      ]

  -- Over databases that answer, publishing a message that can be read succeeds, if it is in an outbox
  -- that satisfies its constraints.
  pub publish_to_ledger_succeeds :
      (message row : Message B) (entry : Entry) (w : World P M)
      → json.unmarshal message.payload ≡ some entry
      → find? (λ r. r.id == message.id) (i.messages w.pg) ≡ some row
      → outbox_schema (i.messages w.pg) ≡ true
      → (publish_to_ledger q c json message now w).0 ≡ ok tt
  unfolding publish_to_ledger publish_payload mark_published
  publish_to_ledger_succeeds message row entry w u found schema =
      rw (u, publish_entry_succeeds (completed_entry now entry) w.mongo)
        (ap wrap_error (mark_succeeds q i updates now message.id processed w.pg row found schema))
