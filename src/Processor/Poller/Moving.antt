-- ===== src/Processor/Poller/Moving.antt =====
-- A tick of the poller as moves on the databases.
use innoscripta_banking_ledg.Base.{ℕ, pos, ◌+ℤ◌, leb_ℤ, wrap64, Bool-cases, inl, inr, List, [], ◌∷◌}
use innoscripta_banking_ledg.Domain.Shared.{failed_to_publish}
use innoscripta_banking_ledg.Domain.Result.{Result, ok, err}
use innoscripta_banking_ledg.Domain.Outbox.{Json, Message}
use innoscripta_banking_ledg.Platform.Postgres.{Postgres}
use innoscripta_banking_ledg.Platform.Collection.{Collection}
use innoscripta_banking_ledg.Platform.World.{World}
use innoscripta_banking_ledg.Data.OutboxRepository.{get_pending, increment_attempts}
use innoscripta_banking_ledg.Processor.Service.Overlap.{
  Moves, still, more, look, mark, count, Moves-trans,
}
use innoscripta_banking_ledg.Processor.Publisher.{publish_to_ledger}
use innoscripta_banking_ledg.Processor.Publisher.Moving.{publish_to_ledger-Moves}
use innoscripta_banking_ledg.Processor.Poller.{
  Poller, give_up, after_increment, retry_later, process_message, process_all, process_fetched,
  process_pending_messages,
}

module _ {B P X M : Type 0} (poller : Poller) (pg : Postgres B P X) (c : Collection M)
    (json : Json B) (now : ℕ) where
  given_up-Moves :
      (message : Message B) (first w : World P M) (r : Result (Unit {0}))
      → Moves pg c json first w
      → Moves pg c json first
          (record w { pg = after_increment poller pg.pool c json now message r w.pg })
  unfolding after_increment give_up
  given_up-Moves message first w (err _) moves = moves
  given_up-Moves message first w (ok _) moves =
      elim (Bool-cases (leb_ℤ poller.max_retry_attempts (wrap64 (message.attempts +ℤ pos 1)))) [
        | inl last ↦ rw last (more moves (mark message.id failed_to_publish now w))
        | inr again ↦ rw again moves
      ]

  retried-Moves :
      (message : Message B) (first w : World P M) (r : Result (Unit {0}))
      → Moves pg c json first w
      → Moves pg c json first (retry_later poller pg.pool c json now message r w)
  unfolding retry_later
  retried-Moves message first w (ok _) moves = moves
  retried-Moves message first w (err _) moves =
      let (r, p) = increment_attempts pg.pool message.id now w.pg in
      given_up-Moves message first (record w { pg = p }) r (more moves (count message.id now w))

  process_all-Moves :
      (first : World P M) (messages : List (Message B)) (w : World P M)
      → Moves pg c json first w
      → Moves pg c json first (process_all poller pg.pool c json now messages w)
  unfolding process_all process_message
  process_all-Moves first [] w moves = moves
  process_all-Moves first (message ∷ messages) w moves =
      let (r, w') = publish_to_ledger pg.pool c json message now w in
      process_all-Moves first messages (retry_later poller pg.pool c json now message r w') (
        retried-Moves message first w' r
          (Moves-trans pg c json moves (publish_to_ledger-Moves pg c json message now w)))

  fetched-Moves :
      (first w : World P M) (r : Result (List (Message B)))
      → Moves pg c json first w
      → Moves pg c json first (process_fetched poller pg.pool c json now r w).1
  unfolding process_fetched
  fetched-Moves first w (err e) moves = moves
  fetched-Moves first w (ok messages) moves = process_all-Moves first messages w moves

  pub process_pending_messages-Moves :
      (w : World P M) → Moves pg c json w (process_pending_messages poller pg.pool c json now w).1
  unfolding process_pending_messages
  process_pending_messages-Moves w =
      let (r, p) = get_pending pg.pool poller.batch_size w.pg in
      fetched-Moves w (record w { pg = p }) r (more (still w) (look poller.batch_size w))
