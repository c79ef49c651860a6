-- ===== src/Processor/Poller/Draining.antt =====
-- The loop of `Start` over an outbox that answers: the retries of every message come to their end,
-- whatever the ledger does.
use innoscripta_banking_ledg.Base.{
  ℕ, pos_part, ◌+◌, ◌-◌, ◌≤◌, ◌<◌, IsInt32, ◌≡◌, ◌⊎◌, inl, inr, refl, sym, ap, subst, true, not,
  Bool-cases, List, [], ◌∷◌, ◌==◌, map, length, all_of, All-mono, All-find?, arith,
}
use mathlib.Core.List.{Memᴰ}
use innoscripta_banking_ledg.Domain.Outbox.{Json, Message}
use innoscripta_banking_ledg.Platform.Reply.{Batch}
use innoscripta_banking_ledg.Platform.Querier.{Querier, IsQuerier}
use innoscripta_banking_ledg.Platform.Collection.{Collection, IsCollection}
use innoscripta_banking_ledg.Platform.World.{World}
use innoscripta_banking_ledg.Data.OutboxRepository.{is_pending, get_pending}
use innoscripta_banking_ledg.Processor.Poller.{
  Poller, process_message, process_all, process_fetched, process_pending_messages, tick, start,
}
use innoscripta_banking_ledg.Processor.Poller.Effort.{efforts, HasRoom}
use innoscripta_banking_ledg.Processor.Poller.Readiness.{
  IsOrderly, AreReady, Settled-rest, IsCurrent-of_mem, efforts-eq-zero, none_pending_of_efforts,
}
use innoscripta_banking_ledg.Processor.Poller.Settling.{
  PollingAnswers, Settled, process_message-Settled,
}

less_left : (a b n a' : ℕ) → (n ≡ 0 → a ≡ 0) → a' ≡ a → b + n ≤ a' → b ≤ a - 1
less_left a b n a' nothing e h = elim (Bool-cases (n == 0)) [
  | inl none ↦ omega (arith, nothing (ground arith))
  | inr any ↦ ground arith
]

module _ {B P M : Type 0} (poller : Poller) (q : Querier B P) (i : IsQuerier q) (c : Collection M)
    (j : IsCollection c) (json : Json B) (answers : PollingAnswers q i)
    (range : IsInt32 poller.max_retry_attempts) where
  -- What is to be done of the outbox of a state.
  abbrev pub to_do : World P M → ℕ
  to_do w = efforts poller.max_retry_attempts (i.messages w.pg)

  module _ (now : ℕ) (message : Message B) (rest : List (Message B)) (w : World P M)
      (o : IsOrderly poller.max_retry_attempts (i.messages w.pg))
      (ready : AreReady poller.max_retry_attempts (message ∷ rest) (i.messages w.pg)) where
    pub ready-Settled :
        Settled poller.max_retry_attempts message
          (i.messages w.pg)
          (i.messages (process_message poller q c json now message w).pg)
    ready-Settled =
        process_message-Settled poller q i c j json answers now message range ready.pending.0
          (All-find? (HasRoom poller.max_retry_attempts) (λ row. row.id == message.id)
            (i.messages w.pg) message ready.current.0 o.room ready.pending.0)
          w o.schema ready.current.0

    pub process_message-rest :
        let w' = process_message poller q c json now message w in
        IsOrderly poller.max_retry_attempts (i.messages w'.pg)
        × AreReady poller.max_retry_attempts rest (i.messages w'.pg)
        × (to_do w' < to_do w)
    process_message-rest =
        Settled-rest poller.max_retry_attempts message rest (i.messages w.pg) _ o ready
          ready-Settled

  process_all_drains :
      (now : ℕ) (messages : List (Message B)) (w : World P M)
      → IsOrderly poller.max_retry_attempts (i.messages w.pg)
      → AreReady poller.max_retry_attempts messages (i.messages w.pg)
      → let w' = process_all poller q c json now messages w in
        IsOrderly poller.max_retry_attempts (i.messages w'.pg)
        × (to_do w' + length messages ≤ to_do w)
  unfolding process_all
  process_all_drains now [] w o ready = (o, omega arith)
  process_all_drains now (message ∷ messages) w o ready =
      let (o', ready', less) = process_message-rest now message messages w o ready in
      let (o'', less') =
        process_all_drains now messages (process_message poller q c json now message w) o' ready' in
      (o'', omega arith)

  module _ (some_fit : 0 < pos_part poller.batch_size) where
    -- A tick handles messages that are ready, some if any is pending.
    pub tick-Ready :
        (now : ℕ) (w : World P M)
        → IsOrderly poller.max_retry_attempts (i.messages w.pg)
        → (found : List (Message B)) × (s : P) × ((process_pending_messages poller q c json now w).1
            ≡ process_all poller q c json now found (record w { pg = s }))
          × (i.messages s ≡ i.messages w.pg)
          × AreReady poller.max_retry_attempts found (i.messages w.pg)
          × ((length found ≡ 0) → to_do w ≡ 0)
    unfolding process_pending_messages process_fetched get_pending
    tick-Ready now w o =
        let (found, answered, once, all) =
          answers.fetch_answers poller.batch_size w.pg some_fit o.schema in
        let batch =
          subst (Batch (λ row. is_pending row.status) poller.batch_size (i.messages w.pg)) answered
            (i.select_messages_finds (λ row. is_pending row.status) poller.batch_size w.pg) in
        (
          found,
          (q.select_messages (λ row. is_pending row.status) poller.batch_size w.pg).1,
          rw answered refl,
          (i.select_messages_keeps (λ row. is_pending row.status) poller.batch_size w.pg).1,
          record {
            once = once;
            pending = All-mono _ _ (λ m (is, at). is) found batch.1;
            current =
                All-mono _ _
                  (λ m (is, at).
                    IsCurrent-of_mem poller.max_retry_attempts m (i.messages w.pg)
                      (ground (arith, o.schema)) at)
                  found batch.1;
          },
          λ none_found.
              efforts-eq-zero poller.max_retry_attempts (i.messages w.pg)
                (λ m at is. none_left found none_found (all m at is)),
        )
      where
        none_left :
            {m : Message B} (found : List (Message B))
            → length found ≡ 0
            → Memᴰ m found ⊎ (pos_part poller.batch_size ≤ length found)
            → ⊥
        none_left [] e (inl at) = elim at [ ]
        none_left [] e (inr full) = absurd (omega arith)
        none_left (x ∷ found) e either = absurd (omega arith)

    pub tick_drains :
        (now : ℕ) (w : World P M)
        → IsOrderly poller.max_retry_attempts (i.messages w.pg)
        → let w' = (process_pending_messages poller q c json now w).1 in
          IsOrderly poller.max_retry_attempts (i.messages w'.pg) × (to_do w' ≤ to_do w - 1)
    tick_drains now w o =
        let (found, s, e, same, ready, nothing) = tick-Ready now w o in
        let (o', less) =
          process_all_drains now found (record w { pg = s })
            (subst (IsOrderly poller.max_retry_attempts) (sym same) o)
            (subst (AreReady poller.max_retry_attempts found) (sym same) ready) in
        rw e (
          o',
          less_left (to_do w) _ (length found) _ nothing
              (ap (efforts poller.max_retry_attempts) same) less,
        )

    ticks_drain :
        (times : List ℕ) (w : World P M)
        → IsOrderly poller.max_retry_attempts (i.messages w.pg)
        → let w' = start poller q c json (map tick times) w in to_do w' ≤ to_do w - length times
    unfolding start
    ticks_drain [] w o = omega arith
    ticks_drain (now ∷ times) w o =
        let (o', less) = tick_drains now w o in
        omega (arith, ticks_drain times (process_pending_messages poller q c json now w).1 o')

    -- The retries end: over an outbox that answers, whatever the ledger answers, the loop of `Start`
    -- leaves no message pending, once it has had as many ticks as the failures that the pending
    -- messages have left until they are given up, added up, of which each has at least one. This
    -- holds of any positive batch size and 32-bit limit of attempts, from an outbox that satisfies
    -- its constraints and whose column of attempts, an INTEGER, has room to count one more of each
    -- pending message.
    pub start_drains :
        (times : List ℕ) (w : World P M)
        → IsOrderly poller.max_retry_attempts (i.messages w.pg)
        → to_do w ≤ length times
        → all_of
            (λ row. not (is_pending row.status))
            (i.messages (start poller q c json (map tick times) w).pg)
          ≡ true
    start_drains times w o enough =
        none_pending_of_efforts poller.max_retry_attempts
          (i.messages (start poller q c json (map tick times) w).pg)
          (omega (arith, ticks_drain times w o))
