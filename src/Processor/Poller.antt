-- ===== src/Processor/Poller.antt =====
-- internal/transaction_processor/outbox_poller/poller.go: one tick, and the loop of `Start`,
-- which calls `processPendingMessages` at every tick and only logs its error.
pub mod Delivered
pub mod Steps
pub mod Polling
pub mod Progress
pub mod Effort
pub mod Restamping
pub mod Settling
pub mod Readiness
pub mod Draining
pub mod Tracking
pub mod Moving
use innoscripta_banking_ledg.Base.{ℕ, ℤ, pos, ◌+ℤ◌, leb_ℤ, wrap64, List, [], ◌∷◌, if◌then◌else◌}
use innoscripta_banking_ledg.Domain.Shared.{failed_to_publish}
use innoscripta_banking_ledg.Domain.Error.{wrapped}
use innoscripta_banking_ledg.Domain.Result.{Result, ok, err, Exec}
use innoscripta_banking_ledg.Domain.Outbox.{Json, Message}
use innoscripta_banking_ledg.Platform.Querier.{Querier}
use innoscripta_banking_ledg.Platform.Collection.{Collection}
use innoscripta_banking_ledg.Platform.World.{World}
use innoscripta_banking_ledg.Data.OutboxRepository.{get_pending, increment_attempts, update_status}
use innoscripta_banking_ledg.Processor.Publisher.{publish_to_ledger}

pub record Poller : Type 0 where
  pub batch_size : ℤ
  pub max_retry_attempts : ℤ

-- What the `select` of the loop receives: the ticker, with the time, or the end of the context.
pub data Signal : Type 0 where
  tick : ℕ → Signal
  cancelled : Signal

module _ {B P M : Type 0} (poller : Poller) (q : Querier B P) (c : Collection M) (json : Json B)
    (now : ℕ) where
  -- The attempts are those of the message as it was read, before the increment.
  give_up : Message B → P → P
  give_up message p =
      if leb_ℤ poller.max_retry_attempts (wrap64 (message.attempts +ℤ pos 1))
      then (update_status q message.id failed_to_publish now p).1
      else p

  after_increment : Message B → Result (Unit {0}) → P → P
  unfolding give_up
  after_increment message (err _) p = p
  after_increment message (ok _) p = give_up message p

  retry_later : Message B → Result (Unit {0}) → World P M → World P M
  unfolding after_increment
  retry_later message (ok _) w = w
  retry_later message (err _) w =
      let (r, p) = increment_attempts q message.id now w.pg in
      record w { pg = after_increment message r p }

  pub process_message : Message B → World P M → World P M
  unfolding retry_later
  process_message message w =
      let (r, w') = publish_to_ledger q c json message now w in retry_later message r w'

  pub process_all : List (Message B) → World P M → World P M
  unfolding process_message
  process_all [] w = w
  process_all (message ∷ messages) w = process_all messages (process_message message w)

  process_fetched : Result (List (Message B)) → Exec (World P M) (Unit {0})
  unfolding process_all
  process_fetched (err e) w = (err (wrapped e), w)
  process_fetched (ok messages) w = (ok tt, process_all messages w)

  unfoldable pub process_pending_messages : Exec (World P M) (Unit {0})
  unfolding process_fetched
  process_pending_messages w =
      let (r, p) = get_pending q poller.batch_size w.pg in process_fetched r (record w { pg = p })

module _ {B P M : Type 0} (poller : Poller) (q : Querier B P) (c : Collection M)
    (json : Json B) where
  -- `Start`, as far as the signals have come.
  unfoldable pub start : List Signal → World P M → World P M
  start [] w = w
  start (cancelled ∷ _) w = w
  start (tick now ∷ signals) w = start signals (process_pending_messages poller q c json now w).1
