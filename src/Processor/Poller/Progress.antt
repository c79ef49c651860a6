-- ===== src/Processor/Poller/Progress.antt =====
-- A tick over databases that answer: what is fetched and can be read gets published.
use innoscripta_banking_ledg.Base.{
  ℕ, ◌≡◌, inl, inr, refl, sym, subst, true, Bool-cases, some, List, [], ◌∷◌, ◌==◌, All, All-mono,
  find?, arith,
}
use mathlib.Core.List.{Memᴰ}
use innoscripta_banking_ledg.Domain.Shared.{completed}
use innoscripta_banking_ledg.Domain.Result.{Result, ok, err}
use innoscripta_banking_ledg.Domain.Ledger.{Entry}
use innoscripta_banking_ledg.Domain.Outbox.{Json, Message}
use innoscripta_banking_ledg.Domain.Outbox.Content.{
  Fits, Fits-of_contents, contents, outbox_schema_of_contents,
}
use innoscripta_banking_ledg.Platform.Reply.{Reply, done, fault, Batch}
use innoscripta_banking_ledg.Platform.Schema.{outbox_schema}
use innoscripta_banking_ledg.Platform.Querier.{Querier, IsQuerier}
use innoscripta_banking_ledg.Platform.Collection.{Collection, IsCollection}
use innoscripta_banking_ledg.Platform.World.{World}
use innoscripta_banking_ledg.Data.OutboxRepository.{get_pending, scanned, is_pending}
use innoscripta_banking_ledg.Data.LedgerRepository.Answering.{Answers}
use innoscripta_banking_ledg.Data.LedgerRepository.Entries.{HasStatus}
use innoscripta_banking_ledg.Processor.Publisher.Delivery.{Delivers, publish_to_ledger-Delivers}
use innoscripta_banking_ledg.Processor.Publisher.Success.{UpdatesAnswer, publish_to_ledger_succeeds}
use innoscripta_banking_ledg.Processor.Poller.{
  Poller, retry_later, process_message, process_all, process_fetched, process_pending_messages,
}
use innoscripta_banking_ledg.Processor.Poller.Steps.{process_message-Steps}
use innoscripta_banking_ledg.Processor.Poller.Polling.{process_all-Polled, fetched_fit}

module _ {B : Type 0} where
  -- The outbox has a row under the ID of the message.
  abbrev pub IsQueued : List (Message B) → Message B → Type 0
  IsQueued queue m = (row : Message B) × (find? (λ r. r.id == m.id) queue ≡ some row)

  IsQueued-of_mem : (m : Message B) (queue : List (Message B)) → Memᴰ m queue → IsQueued queue m
  IsQueued-of_mem m [] at = elim at [ ]
  IsQueued-of_mem m (x ∷ queue) (Memᴰ.head e) = (x, ground arith)
  IsQueued-of_mem m (x ∷ queue) (Memᴰ.tail at) = elim (Bool-cases (x.id == m.id)) [
    | inl here ↦ (x, rw here refl)
    | inr there ↦ let (row, found) = IsQueued-of_mem m queue at in (row, rw there found)
  ]

  IsQueued-of_contents :
      (m : Message B) (before after : List (Message B))
      → contents after ≡ contents before
      → IsQueued before m
      → IsQueued after m
  IsQueued-of_contents m [] [] same q = q
  IsQueued-of_contents m [] (y ∷ after) same q = absurd (ground arith)
  IsQueued-of_contents m (x ∷ before) [] same q = absurd (ground arith)
  IsQueued-of_contents m (x ∷ before) (y ∷ after) same (row, found) =
      elim (Bool-cases (y.id == m.id)) [
        | inl here ↦ (y, rw here refl)
        | inr there ↦
            let (row', found') =
              IsQueued-of_contents m before after (ground arith) (row, ground arith) in
            (row', rw there found')
      ]

  -- If the message can be read, its transaction is COMPLETED.
  abbrev pub IsPublished : Json B → List Entry → Message B → Type 0
  IsPublished json entries m =
      (e : Entry) → json.unmarshal m.payload ≡ some e → HasStatus completed e.transaction_id entries

same_rows :
    {B : Type 0} (found rows : List (Message B))
    → Path (Result (List (Message B))) (ok found) (ok rows)
    → found ≡ rows
same_rows found rows h = ground arith

module _ {B P M : Type 0} (poller : Poller) (q : Querier B P) (i : IsQuerier q) (c : Collection M)
    (j : IsCollection c) (json : Json B) (answers : Answers c) (updates : UpdatesAnswer q i)
    (now : ℕ) where
  published_of :
      (message : Message B) (entry : Entry) (w : World P M) (r : Result (Unit {0})) (w' : World P M)
      → r ≡ ok tt
      → Delivers q i c j json message now entry w r w'
      → HasStatus completed entry.transaction_id
          (j.entries (retry_later poller q c json now message r w').mongo)
  unfolding retry_later
  published_of message entry w (ok _) w' h (_, _, (has, _), _) = has
  published_of message entry w (err _) w' h d = absurd (ground arith)

  pub process_message_publishes :
      (message : Message B) (w : World P M)
      → outbox_schema (i.messages w.pg) ≡ true
      → IsQueued (i.messages w.pg) message
      → IsPublished json (j.entries (process_message poller q c json now message w).mongo) message
  unfolding process_message
  process_message_publishes message w schema (row, found) entry u =
      published_of message entry w _ _
        (publish_to_ledger_succeeds q i c j json answers updates now message row entry w u found
          schema)
        (publish_to_ledger-Delivers q i c j json message now entry w u)

  process_all_publishes :
      (messages : List (Message B)) (w : World P M)
      → outbox_schema (i.messages w.pg) ≡ true
      → All (λ m. Fits m (i.messages w.pg)) messages
      → All (IsQueued (i.messages w.pg)) messages
      → All
          (IsPublished json (j.entries (process_all poller q c json now messages w).mongo))
          messages
  unfolding process_all
  process_all_publishes [] w schema fits queued = tt
  process_all_publishes (message ∷ messages) w schema (fit, fits) (is, queued) =
      let w' = process_message poller q c json now message w in
      let polled = (process_message-Steps poller q i c j json now message w).0 in
      let fits' = All-mono _ _ (λ m. Fits-of_contents m _ _ polled.1) messages fits in
      let rest = (process_all-Polled poller q i c j json now messages w' fits').0 in
      (
        λ e u. rest.2 e.transaction_id (process_message_publishes message w schema is e u),
        process_all_publishes messages w' (outbox_schema_of_contents _ _ polled.1 schema) fits'
            (All-mono _ _ (λ m. IsQueued-of_contents m _ _ polled.1) messages queued),
      )

  fetched_publishes :
      (w : World P M) (rows : List (Message B)) (r : Reply (List (Message B)))
      → outbox_schema (i.messages w.pg) ≡ true
      → Batch (λ row. is_pending row.status) poller.batch_size (i.messages w.pg) r
      → scanned r ≡ ok rows
      → All
          (IsPublished json (j.entries (process_fetched poller q c json now (scanned r) w).1.mongo))
          rows
  unfolding process_fetched
  fetched_publishes w rows fault schema batch h = absurd (ground arith)
  fetched_publishes w rows (done found) schema batch h =
      subst (All (IsPublished json (j.entries (process_all poller q c json now found w).mongo)))
        (same_rows found rows h)
        (process_all_publishes found w schema
          (fetched_fit poller q i c j json now poller.batch_size w schema found batch)
          (All-mono _ _ (λ m (_, at). IsQueued-of_mem m (i.messages w.pg) at) found batch.1))

  -- Over databases that answer, from an outbox that satisfies its constraints, one tick completes what
  -- it fetches: of every pending message that the query gives, the transaction is COMPLETED in the
  -- ledger afterwards, if the payload can be read.
  pub process_pending_messages_publishes :
      (w : World P M) (rows : List (Message B))
      → outbox_schema (i.messages w.pg) ≡ true
      → (get_pending q poller.batch_size w.pg).0 ≡ ok rows
      → All
          (IsPublished json (j.entries (process_pending_messages poller q c json now w).1.mongo))
          rows
  unfolding process_pending_messages get_pending
  process_pending_messages_publishes w rows schema fetched =
      let (r, p) = q.select_messages (λ row. is_pending row.status) poller.batch_size w.pg in
      let (_, messages) =
        i.select_messages_keeps (λ row. is_pending row.status) poller.batch_size w.pg in
      fetched_publishes (record w { pg = p }) rows r
        (subst (λ l. outbox_schema l ≡ true) (sym messages) schema)
        (subst (λ l. Batch (λ row. is_pending row.status) poller.batch_size l r) (sym messages)
          (i.select_messages_finds (λ row. is_pending row.status) poller.batch_size w.pg))
        fetched
