-- ===== src/Processor/Poller/Tracking.antt =====
-- The loop of `Start` over databases that answer: a message that can be read reaches the ledger.
use innoscripta_banking_ledg.Base.{
  ℕ, ℤ, pos_part, ◌≤◌, ◌<◌, IsInt32, ◌≡◌, ◌⊎◌, inl, inr, refl, sym, ◌∙◌, ap, subst, Bool, true,
  false, not, Bool-cases, some, List, [], ◌∷◌, ◌==◌, map, length, find?, all_of-find?,
  find?-update_all, find?-update_all_other, arith,
}
use innoscripta_banking_ledg.Domain.Shared.{completed}
use innoscripta_banking_ledg.Domain.Ledger.{Entry}
use innoscripta_banking_ledg.Domain.Outbox.{Json, Message}
use innoscripta_banking_ledg.Platform.Querier.{Querier, IsQuerier}
use innoscripta_banking_ledg.Platform.Collection.{Collection, IsCollection}
use innoscripta_banking_ledg.Platform.World.{World}
use innoscripta_banking_ledg.Data.OutboxRepository.{is_pending}
use innoscripta_banking_ledg.Data.LedgerRepository.Answering.{Answers}
use innoscripta_banking_ledg.Data.LedgerRepository.Entries.{HasStatus}
use innoscripta_banking_ledg.Processor.Publisher.Completion.{KeepsCompleted}
use innoscripta_banking_ledg.Processor.Poller.{
  Poller, process_message, process_all, process_pending_messages, tick, start,
}
use innoscripta_banking_ledg.Processor.Poller.Steps.{process_message-Steps}
use innoscripta_banking_ledg.Processor.Poller.Polling.{process_pending_messages-Polled}
use innoscripta_banking_ledg.Processor.Poller.Progress.{process_message_publishes}
use innoscripta_banking_ledg.Processor.Poller.Effort.{efforts}
use innoscripta_banking_ledg.Processor.Poller.Restamping.{IsCurrent}
use innoscripta_banking_ledg.Processor.Poller.Settling.{PollingAnswers, Settled}
use innoscripta_banking_ledg.Processor.Poller.Readiness.{IsOrderly, AreReady}
use innoscripta_banking_ledg.Processor.Poller.Draining.{
  ready-Settled, process_message-rest, tick-Ready, tick_drains, start_drains,
}

module _ {B : Type 0} (json : Json B) (id transaction_id : ℕ) where
  -- The message under the ID is still pending, with an entry that can be read, or its transaction is
  -- COMPLETED.
  pub record IsTracked (queue : List (Message B)) (entries : List Entry) : Type 0 where
    pub row : Message B
    pub found : find? (λ r. r.id == id) queue ≡ some row
    pub entry : Entry
    pub readable : json.unmarshal row.payload ≡ some entry
    pub of_transaction : entry.transaction_id ≡ transaction_id
    pub progress : (is_pending row.status ≡ true) ⊎ HasStatus completed transaction_id entries

  moved_on :
      (before after : List Entry) (b : Bool)
      → KeepsCompleted before after
      → (b ≡ true) ⊎ HasStatus completed transaction_id before
      → (b ≡ true) ⊎ HasStatus completed transaction_id after
  moved_on before after b keeps (inl h) = inl h
  moved_on before after b keeps (inr h) = inr (keeps transaction_id h)

  -- The message itself has been handled, and published.
  handled-IsTracked :
      (limit : ℤ) (message : Message B) (before after : List (Message B)) (entries : List Entry)
      → message.id ≡ id
      → IsCurrent message before
      → Settled limit message before after
      → (entry : Entry) → json.unmarshal message.payload ≡ some entry
      → entry.transaction_id ≡ transaction_id
      → HasStatus completed entry.transaction_id entries
      → IsTracked after entries
  handled-IsTracked limit message before after entries e is (f, (same, e'), _, _) entry u of has =
      record {
        row = f message;
        found =
            subst (λ (k : ℕ). find? (λ r. r.id == k) after ≡ some (f message)) e
              (ap (find? (λ row. row.id == message.id)) e'
                ∙ find?-update_all (λ r. r.id) message.id f
                    (λ m. ap (λ (x : Message B). x.id) (same m)) before message is);
        entry = entry;
        readable = ap (λ (x : Message B). json.unmarshal x.payload) (same message) ∙ u;
        of_transaction = of;
        progress = inr (subst (λ (t : ℕ). HasStatus completed t entries) of has);
      }

  -- Another message has been handled.
  other-IsTracked :
      (limit : ℤ) (message : Message B) (before after : List (Message B))
      (entries entries' : List Entry)
      → (id == message.id) ≡ false
      → Settled limit message before after
      → KeepsCompleted entries entries'
      → IsTracked before entries
      → IsTracked after entries'
  other-IsTracked limit message before after entries entries' ne (f, (same, e), _, _) keeps t =
      record {
        row = t.row;
        found =
            ap (find? (λ row. row.id == id)) e
            ∙ find?-update_all_other (λ r. r.id) message.id f
                (λ m. ap (λ (x : Message B). x.id) (same m)) id ne before
            ∙ t.found;
        entry = t.entry;
        readable = t.readable;
        of_transaction = t.of_transaction;
        progress = moved_on entries entries' (is_pending t.row.status) keeps t.progress;
      }

same_payload :
    {B : Type 0} (k l : ℕ) (queue : List (Message B)) (row message : Message B)
    → l ≡ k
    → find? (λ r. r.id == k) queue ≡ some row
    → find? (λ r. r.id == l) queue ≡ some message
    → row.payload ≡ message.payload
same_payload k l queue row message e h h' =
    let same : some row ≡ some message =
      sym h ∙ sym (ap (λ (n : ℕ). find? (λ r. r.id == n) queue) e) ∙ h' in
    ground arith

module _ {B P M : Type 0} (poller : Poller) (q : Querier B P) (i : IsQuerier q) (c : Collection M)
    (j : IsCollection c) (json : Json B) (answers : PollingAnswers q i) (ledger : Answers c)
    (range : IsInt32 poller.max_retry_attempts) (id transaction_id : ℕ) where
  abbrev pub Tracks : World P M → Type 0
  Tracks w = IsTracked json id transaction_id (i.messages w.pg) (j.entries w.mongo)

  process_message-IsTracked :
      (now : ℕ) (message : Message B) (rest : List (Message B)) (w : World P M)
      → IsOrderly poller.max_retry_attempts (i.messages w.pg)
      → AreReady poller.max_retry_attempts (message ∷ rest) (i.messages w.pg)
      → Tracks w
      → Tracks (process_message poller q c json now message w)
  process_message-IsTracked now message rest w o ready t =
      let w' = process_message poller q c json now message w in
      let settled = ready-Settled poller q i c j json answers range now message rest w o ready in
      elim (Bool-cases (id == message.id)) [
        | inr other ↦
            other-IsTracked json id transaction_id poller.max_retry_attempts message
              (i.messages w.pg) (i.messages w'.pg) (j.entries w.mongo) (j.entries w'.mongo) other
              settled (process_message-Steps poller q i c j json now message w).0.2 t
        | inl here ↦
            let e : message.id ≡ id = ground arith in
            let u =
              ap json.unmarshal (
                sym (
                  same_payload id message.id (i.messages w.pg) t.row message e t.found
                    ready.current.0))
              ∙ t.readable in
            handled-IsTracked json id transaction_id poller.max_retry_attempts message
              (i.messages w.pg) (i.messages w'.pg) (j.entries w'.mongo) e ready.current.0 settled
              t.entry u t.of_transaction
              (process_message_publishes poller q i c j json ledger answers.updates now message w
                o.schema (message, ready.current.0) t.entry u)
      ]

  process_all-IsTracked :
      (now : ℕ) (messages : List (Message B)) (w : World P M)
      → IsOrderly poller.max_retry_attempts (i.messages w.pg)
      → AreReady poller.max_retry_attempts messages (i.messages w.pg)
      → Tracks w
      → Tracks (process_all poller q c json now messages w)
  unfolding process_all
  process_all-IsTracked now [] w o ready t = t
  process_all-IsTracked now (message ∷ messages) w o ready t =
      let (o', ready', _) =
        process_message-rest poller q i c j json answers range now message messages w o ready in
      process_all-IsTracked now messages (process_message poller q c json now message w) o' ready'
        (process_message-IsTracked now message messages w o ready t)

  module _ (some_fit : 0 < pos_part poller.batch_size) where
    tick-IsTracked :
        (now : ℕ) (w : World P M)
        → IsOrderly poller.max_retry_attempts (i.messages w.pg)
        → Tracks w
        → Tracks (process_pending_messages poller q c json now w).1
    tick-IsTracked now w o t =
        let (found, s, e, same, ready, _) =
          tick-Ready poller q i c j json answers range some_fit now w o in
        rw e (
          process_all-IsTracked now found (record w { pg = s })
            (subst (IsOrderly poller.max_retry_attempts) (sym same) o)
            (subst (AreReady poller.max_retry_attempts found) (sym same) ready)
            (subst (λ l. IsTracked json id transaction_id l (j.entries w.mongo)) (sym same) t))

    start-IsTracked :
        (times : List ℕ) (w : World P M)
        → IsOrderly poller.max_retry_attempts (i.messages w.pg)
        → Tracks w
        → Tracks (start poller q c json (map tick times) w)
          × (i.accounts (start poller q c json (map tick times) w).pg ≡ i.accounts w.pg)
    unfolding start
    start-IsTracked [] w o t = (t, refl)
    start-IsTracked (now ∷ times) w o t =
        let w' = (process_pending_messages poller q c json now w).1 in
        let o' = (tick_drains poller q i c j json answers range some_fit now w o).0 in
        let (t', same) = start-IsTracked times w' o' (tick-IsTracked now w o t) in
        (t', same ∙ (process_pending_messages-Polled poller q i c j json now w o.schema).0.0)

    -- Once the pending messages have had their ticks, the tracked transaction is COMPLETED.
    pub start_completes :
        (times : List ℕ) (w : World P M)
        → IsOrderly poller.max_retry_attempts (i.messages w.pg)
        → Tracks w
        → efforts poller.max_retry_attempts (i.messages w.pg) ≤ length times
        → let w' = start poller q c json (map tick times) w in
          HasStatus completed transaction_id (j.entries w'.mongo)
          × (i.accounts w'.pg ≡ i.accounts w.pg)
    start_completes times w o t enough =
        let w' = start poller q c json (map tick times) w in
        let (t', same) = start-IsTracked times w o t in
        let none_pending =
          start_drains poller q i c j json answers range some_fit times w o enough in
        (
          completed_of t'.progress (
              all_of-find? (λ r. r.id == id) (λ row. not (is_pending row.status)) (λ r. r)
                (i.messages w'.pg) t'.row t'.found none_pending),
          same,
        )
      where
        completed_of : {b : Bool} {T : Type 0} → (b ≡ true) ⊎ T → not b ≡ true → T
        completed_of (inr has) h = has
        completed_of (inl is) h = absurd (ground arith)
