-- ===== src/Processor/Poller/Settling.antt =====
-- One message of a tick over an outbox that answers, whatever the ledger does: each message that is
-- handled is marked or has an attempt less.
use innoscripta_banking_ledg.Base.{
  ℕ, ℤ, pos, pos_part, ◌+ℤ◌, ◌≤◌, ◌<◌, leb_ℤ, wrap64, IsInt32, ◌≡◌, ◌⊎◌, inl, inr, refl, sym, subst,
  ◌∙◌, true, false, Bool-cases, Option-cases, length, some, List, ◌==◌, find?, distinct, count_pos,
  arith,
}
use mathlib.Core.List.{Memᴰ}
use innoscripta_banking_ledg.Domain.Shared.{processed, failed_to_publish}
use innoscripta_banking_ledg.Domain.Result.{Result, ok, err}
use innoscripta_banking_ledg.Domain.Ledger.{Entry}
use innoscripta_banking_ledg.Domain.Outbox.{Json, Message}
use innoscripta_banking_ledg.Platform.Reply.{done}
use innoscripta_banking_ledg.Platform.Schema.{outbox_schema}
use innoscripta_banking_ledg.Platform.Querier.{Querier, IsQuerier}
use innoscripta_banking_ledg.Platform.Collection.{Collection, IsCollection}
use innoscripta_banking_ledg.Platform.World.{World}
use innoscripta_banking_ledg.Data.OutboxRepository.{
  is_pending, with_status, with_attempt, increment_attempts,
}
use innoscripta_banking_ledg.Data.OutboxRepository.Writes.{
  update_status_stamps, increment_attempts_stamps,
}
use innoscripta_banking_ledg.Processor.Publisher.{publish_to_ledger}
use innoscripta_banking_ledg.Processor.Publisher.Delivery.{
  Delivers, publish_to_ledger-Delivers, publish_to_ledger_gives_up,
}
use innoscripta_banking_ledg.Processor.Publisher.Success.{UpdatesAnswer, mark_succeeds}
use innoscripta_banking_ledg.Processor.Poller.{
  Poller, give_up, after_increment, retry_later, process_message,
}
use innoscripta_banking_ledg.Processor.Poller.Restamping.{
  stamped_self, Stamped-ok, IsCurrent, Restamped, Restamped-schema, Restamped-find?, restamp,
}
use innoscripta_banking_ledg.Processor.Poller.Effort.{
  effort, HasRoom, effort_pos, effort-with_attempt, room-with_attempt,
}

-- The statements that the poller sends come back with an answer, as long as the outbox satisfies its
-- constraints: a query gives each row once, and all of them if they are fewer than its limit; the
-- attempts of a row can be counted on as far as their column, an INTEGER, goes.
pub record PollingAnswers {B P : Type 0} (q : Querier B P) (i : IsQuerier q) : Type 0 where
  pub updates : UpdatesAnswer q i
  pub attempt_answers :
      (id now : ℕ) (s : P) (row : Message B)
      → outbox_schema (i.messages s) ≡ true
      → find? (λ r. r.id == id) (i.messages s) ≡ some row
      → IsInt32 (row.attempts +ℤ pos 1)
      → (n : ℕ) × ((q.update_messages (λ row. row.id == id) (with_attempt now) s).0 ≡ done n)
  pub fetch_answers :
      (limit : ℤ) (s : P)
      → 0 < pos_part limit
      → outbox_schema (i.messages s) ≡ true
      → (found : List (Message B)) × ((q.select_messages (λ row. is_pending row.status) limit s).0
          ≡ done found)
        × (distinct (λ a b. a.id == b.id) found ≡ true)
        × ((m : Message B)
            → Memᴰ m (i.messages s)
            → is_pending m.status ≡ true
            → Memᴰ m found ⊎ (pos_part limit ≤ length found))

module _ {B : Type 0} where
  -- The message is marked or has an attempt less, and no other row is touched.
  abbrev pub Settled : ℤ → Message B → List (Message B) → List (Message B) → Type 0
  Settled limit message before after =
      (f : Message B → Message B) × Restamped message.id f before after
      × (effort limit (f message) < effort limit message)
      × HasRoom limit (f message)

module _ {B P M : Type 0} (poller : Poller) (q : Querier B P) (i : IsQuerier q) (c : Collection M)
    (j : IsCollection c) (json : Json B) (answers : PollingAnswers q i) (now : ℕ)
    (message : Message B) where
  -- What an attempt to publish leaves of the row: it is marked, or as it was.
  abbrev Attempted : World P M → Result (Unit {0}) → World P M → Type 0
  Attempted w r w' =
      (f : Message B → Message B) × Restamped message.id f (i.messages w.pg) (i.messages w'.pg)
      × (r ≡ ok tt → is_pending (f message).status ≡ false)
      × ((f message).attempts ≡ message.attempts)
      × ((is_pending (f message).status ≡ false) ⊎ (f message ≡ message))

  as_it_was :
      (w w' : World P M) (r : Result (Unit {0}))
      → i.messages w'.pg ≡ i.messages w.pg
      → (r ≡ ok tt → ⊥)
      → Attempted w r w'
  as_it_was w w' r same failed = (
    λ m. m,
    (λ m. refl, same ∙ sym (stamped_self message.id (i.messages w.pg))),
    λ e. absurd (failed e),
    refl,
    inr refl,
  )

  publish-Attempted :
      (w : World P M) → let (r, w') = publish_to_ledger q c json message now w in Attempted w r w'
  publish-Attempted w = elim (Option-cases (json.unmarshal message.payload)) [
    | inl unreadable ↦
        (let (failed, _, _, either) =
            publish_to_ledger_gives_up q i c j json message now w unreadable in
          elim either [
            | inl same ↦
                as_it_was w (publish_to_ledger q c json message now w).1
                  (publish_to_ledger q c json message now w).0 same (λ e. ground arith)
            | inr marked ↦
                (with_status failed_to_publish now, (λ m. refl, marked), λ e. refl, refl, inl refl)
          ])
    | inr (entry, u) ↦
        delivered w (publish_to_ledger q c json message now w).1
          (publish_to_ledger q c json message now w).0 entry
          (publish_to_ledger-Delivers q i c j json message now entry w u)
  ]
    where
      delivered :
          (w w' : World P M) (r : Result (Unit {0})) (entry : Entry)
          → Delivers q i c j json message now entry w r w'
          → Attempted w r w'
      delivered w w' (ok _) entry (_, _, (_, marked), _) =
          (with_status processed now, (λ m. refl, marked), λ e. refl, refl, inl refl)
      delivered w w' (err _) entry (_, _, inl same, _) =
          as_it_was w w' (err _) same (λ e. ground arith)
      delivered w w' (err _) entry (_, _, inr (_, marked), _) =
          (with_status processed now, (λ m. refl, marked), λ e. refl, refl, inl refl)

  attempt_succeeds :
      (row : Message B) (s : P)
      → find? (λ r. r.id == message.id) (i.messages s) ≡ some row
      → outbox_schema (i.messages s) ≡ true
      → IsInt32 (row.attempts +ℤ pos 1)
      → (increment_attempts q message.id now s).0 ≡ ok tt
  unfolding increment_attempts
  attempt_succeeds row s found schema fits = ground (
    arith,
    answers.attempt_answers message.id now s row schema found fits,
    i.update_messages_counts (λ r. r.id == message.id) (with_attempt now) s,
    count_pos (λ (r : Message B). r.id == message.id) (i.messages s) row,
  )

  marked-Settled :
      (f : Message B → Message B) (before after : List (Message B))
      → is_pending message.status ≡ true
      → Restamped message.id f before after
      → is_pending (f message).status ≡ false
      → Settled poller.max_retry_attempts message before after
  marked-Settled f before after pending again marked = (
    f,
    again,
    rw marked (effort_pos poller.max_retry_attempts message pending),
    λ h. absurd (ground arith),
  )

  module _ (range : IsInt32 poller.max_retry_attempts) (pending : is_pending message.status ≡ true)
      (room : IsInt32 (message.attempts +ℤ pos 1)) where
    attempted-Settled :
        (f : Message B → Message B) (before after : List (Message B))
        → Restamped message.id (λ m. with_attempt now (f m)) before after
        → (is_pending (f message).status ≡ false) ⊎ (f message ≡ message)
        → leb_ℤ poller.max_retry_attempts (wrap64 (message.attempts +ℤ pos 1)) ≡ false
        → Settled poller.max_retry_attempts message before after
    attempted-Settled f before after again (inl marked) more =
        marked-Settled (λ m. with_attempt now (f m)) before after pending again marked
    attempted-Settled f before after again (inr same) more = (
      λ m. with_attempt now (f m),
      again,
      rw same (effort-with_attempt poller.max_retry_attempts message now pending room more),
      rw same (room-with_attempt poller.max_retry_attempts message now range room more),
    )

    give_up-Settled :
        (f : Message B → Message B) (before : List (Message B)) (s : P)
        → outbox_schema before ≡ true
        → IsCurrent message before
        → Restamped message.id (λ m. with_attempt now (f m)) before (i.messages s)
        → (is_pending (f message).status ≡ false) ⊎ (f message ≡ message)
        → Settled poller.max_retry_attempts message before
            (i.messages (give_up poller q c json now message s))
    unfolding give_up
    give_up-Settled f before s schema is again either =
        let f' = λ (m : Message B). with_attempt now (f m) in
        elim (Bool-cases (leb_ℤ poller.max_retry_attempts (wrap64 (message.attempts +ℤ pos 1)))) [
          | inr more ↦ rw more (attempted-Settled f before (i.messages s) again either more)
          | inl last ↦ rw last (
              marked-Settled (λ m. with_status failed_to_publish now (f' m)) before _ pending
                (restamp message f' (with_status failed_to_publish now) before (i.messages s) _
                  again (λ m. refl)
                  (Stamped-ok message.id (with_status failed_to_publish now) (i.messages s) _ _
                    (mark_succeeds q i answers.updates now message.id failed_to_publish s
                      (f' message) (Restamped-find? message f' before (i.messages s) again is)
                      (Restamped-schema message f' before (i.messages s) again schema))
                    (update_status_stamps q i message.id failed_to_publish now s).0))
                refl)
        ]

    retry-Settled :
        (w w' : World P M) (r : Result (Unit {0}))
        → outbox_schema (i.messages w.pg) ≡ true
        → IsCurrent message (i.messages w.pg)
        → Attempted w r w'
        → Settled poller.max_retry_attempts message
            (i.messages w.pg)
            (i.messages (retry_later poller q c json now message r w').pg)
    unfolding retry_later after_increment
    retry-Settled w w' (ok _) schema is (f, again, marked, _, _) =
        marked-Settled f (i.messages w.pg) (i.messages w'.pg) pending again (marked refl)
    retry-Settled w w' (err _) schema is (f, again, _, counted, either) =
        let schema' =
          Restamped-schema message f (i.messages w.pg) (i.messages w'.pg) again schema in
        let found = Restamped-find? message f (i.messages w.pg) (i.messages w'.pg) again is in
        let added =
          attempt_succeeds (f message) w'.pg found schema'
            (subst (λ n. IsInt32 (n +ℤ pos 1)) (sym counted) room) in
        rw added (
          give_up-Settled f (i.messages w.pg) (increment_attempts q message.id now w'.pg).1 schema
            is
            (restamp message f (with_attempt now) (i.messages w.pg) (i.messages w'.pg) _ again
              (λ m. refl)
              (Stamped-ok message.id (with_attempt now) (i.messages w'.pg) _ _ added
                (increment_attempts_stamps q i message.id now w'.pg).0))
            either)

    -- A pending message in hand that is the row of the outbox is settled.
    pub process_message-Settled :
        (w : World P M)
        → outbox_schema (i.messages w.pg) ≡ true
        → IsCurrent message (i.messages w.pg)
        → Settled poller.max_retry_attempts message
            (i.messages w.pg)
            (i.messages (process_message poller q c json now message w).pg)
    unfolding process_message
    process_message-Settled w schema is =
        retry-Settled w (publish_to_ledger q c json message now w).1
          (publish_to_ledger q c json message now w).0 schema is (publish-Attempted w)
