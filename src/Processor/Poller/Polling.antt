-- ===== src/Processor/Poller/Polling.antt =====
-- One tick of the poller: what it leaves of the accounts, the outbox and the ledger.
use innoscripta_banking_ledg.Base.{
  ℕ, ℤ, ◌≡◌, refl, sym, ap, subst, true, List, [], ◌∷◌, All, All-mono, arith,
}
use innoscripta_banking_ledg.Domain.Outbox.{Json, Message}
use innoscripta_banking_ledg.Domain.Outbox.Content.{Fits, Fits-of_mem, Fits-of_contents, contents}
use innoscripta_banking_ledg.Platform.Reply.{Reply, done, fault, Batch}
use innoscripta_banking_ledg.Platform.Schema.{outbox_schema}
use innoscripta_banking_ledg.Platform.Querier.{Querier, IsQuerier}
use innoscripta_banking_ledg.Platform.Collection.{Collection, IsCollection}
use innoscripta_banking_ledg.Platform.World.{World}
use innoscripta_banking_ledg.Data.OutboxRepository.{scanned, get_pending, is_pending}
use innoscripta_banking_ledg.Processor.Poller.{
  Poller, process_message, process_all, process_fetched, process_pending_messages,
}
use innoscripta_banking_ledg.Processor.Poller.Delivered.{
  Polled, Polled-trans, AllDelivered, Delivered,
}
use innoscripta_banking_ledg.Processor.Poller.Steps.{process_message-Steps}

module _ {B P M : Type 0} (poller : Poller) (q : Querier B P) (i : IsQuerier q) (c : Collection M)
    (j : IsCollection c) (json : Json B) (now : ℕ) where
  pub process_all-Polled :
      (messages : List (Message B)) (w : World P M)
      → All (λ message. Fits message (i.messages w.pg)) messages
      → let w' = process_all poller q c json now messages w in
        Polled i j w w' × (AllDelivered i j json w → AllDelivered i j json w')
  unfolding process_all
  process_all-Polled [] w all = ((refl, refl, λ t h. h), λ d. d)
  process_all-Polled (message ∷ messages) w (fits, all) =
      let w' = process_message poller q c json now message w in
      let (polled, keeps) = process_message-Steps poller q i c j json now message w in
      let (polled', keeps') =
        process_all-Polled messages w'
          (All-mono _ _ (λ m. Fits-of_contents m _ _ polled.1) messages all) in
      (Polled-trans i j w w' _ polled polled', λ d. keeps' (keeps fits d))

  pub fetched_fit :
      (limit : ℤ) (w : World P M)
      → outbox_schema (i.messages w.pg) ≡ true
      → (rows : List (Message B))
      → Batch (λ row. is_pending row.status) limit (i.messages w.pg) (done rows)
      → All (λ message. Fits message (i.messages w.pg)) rows
  fetched_fit limit w schema rows (_, all) =
      All-mono _ _ (λ m (_, at). Fits-of_mem m (i.messages w.pg) (ground arith) at) rows all

  fetched-Polled :
      (w : World P M)
      → outbox_schema (i.messages w.pg) ≡ true
      → (r : Reply (List (Message B)))
      → Batch (λ row. is_pending row.status) poller.batch_size (i.messages w.pg) r
      → let w' = (process_fetched poller q c json now (scanned r) w).1 in
        Polled i j w w' × (AllDelivered i j json w → AllDelivered i j json w')
  unfolding process_fetched
  fetched-Polled w schema fault _ = ((refl, refl, λ t h. h), λ d. d)
  fetched-Polled w schema (done rows) batch =
      process_all-Polled rows w (fetched_fit poller.batch_size w schema rows batch)

  -- A tick without what is asked of the processed messages, which it keeps.
  pub process_pending_messages-Polled :
      (w : World P M)
      → outbox_schema (i.messages w.pg) ≡ true
      → let w' = (process_pending_messages poller q c json now w).1 in
        Polled i j w w' × (AllDelivered i j json w → AllDelivered i j json w')
  unfolding process_pending_messages get_pending
  process_pending_messages-Polled w schema =
      let (r, p) = q.select_messages (λ row. is_pending row.status) poller.batch_size w.pg in
      let (accounts, messages) =
        i.select_messages_keeps (λ row. is_pending row.status) poller.batch_size w.pg in
      let (polled, keeps) =
        fetched-Polled (record w { pg = p })
          (subst (λ l. outbox_schema l ≡ true) (sym messages) schema) r
          (subst (λ l. Batch (λ row. is_pending row.status) poller.batch_size l r) (sym messages)
            (i.select_messages_finds (λ row. is_pending row.status) poller.batch_size w.pg)) in
      (
        Polled-trans i j w (record w { pg = p }) _ (accounts, ap contents messages, λ t h. h)
            polled,
        λ d. keeps (subst (Delivered json (j.entries w.mongo)) (sym messages) d),
      )

  -- One tick, from an outbox that satisfies its constraints and whose processed messages have all been
  -- delivered, whatever the databases answer: the accounts are untouched, each message keeps all but
  -- its status and its attempts, no transaction that is COMPLETED in the ledger ceases to be, and the
  -- messages that are marked as processed afterwards have all been delivered.
  pub process_pending_messages-Delivered :
      (w : World P M)
      → outbox_schema (i.messages w.pg) ≡ true
      → AllDelivered i j json w
      → let w' = (process_pending_messages poller q c json now w).1 in
        Polled i j w w' × AllDelivered i j json w'
  process_pending_messages-Delivered w schema delivered =
      let (polled, keeps) = process_pending_messages-Polled w schema in (polled, keeps delivered)
