-- ===== src/Processor/EventHandler.antt =====
-- internal/transaction_processor/consumer/transaction_event_handler.go. The consumer commits the offset
-- of a message exactly where `HandleMessage` returns no error.
pub mod Handling
pub mod Consumption
pub mod DeadLetters
use innoscripta_banking_ledg.Base.{ℕ, Option, none, some}
use innoscripta_banking_ledg.Domain.Shared.{TransactionRequest}
use innoscripta_banking_ledg.Domain.Error.{external, wrapped}
use innoscripta_banking_ledg.Domain.Result.{Result, ok, err, Exec}
use innoscripta_banking_ledg.Domain.Outbox.{Json}
use innoscripta_banking_ledg.Platform.Reply.{Reply, done, fault}
use innoscripta_banking_ledg.Platform.Postgres.{Postgres}
use innoscripta_banking_ledg.Platform.Collection.{Collection}
use innoscripta_banking_ledg.Platform.World.{World}
use innoscripta_banking_ledg.Processor.Service.{process_transaction}

-- `DeadLetterPublisher`: a key and a value of type `V`. The reason is a text with an error in it.
pub record DeadLetterPublisher (V T : Type 0) : Type 0 where
  pub publish_to_dlq : V → V → T → Reply (Unit {0}) × T

-- The databases and the dead letter queue.
pub record Channels (P M T : Type 0) : Type 0 where
  pub world : World P M
  pub dead_letters : T

abbrev pub dead_lettered : Reply (Unit {0}) → Result (Unit {0})
dead_lettered (done _) = ok tt
dead_lettered fault = err (wrapped external)

abbrev pub processing_error : Result (Unit {0}) → Result (Unit {0})
processing_error (ok _) = ok tt
processing_error (err e) = err (wrapped e)

module _ {B P X M V T : Type 0} (pg : Postgres B P X) (c : Collection M) (json : Json B)
    (decode : V → Option TransactionRequest) where
  -- No producer: the error goes back to the consumer.
  reject_message : Option (DeadLetterPublisher V T) → V → V → Exec (Channels P M T) (Unit {0})
  reject_message none key value w = (err (wrapped external), w)
  reject_message (some producer) key value w =
      let (r, t) = producer.publish_to_dlq key value w.dead_letters in
      (dead_lettered r, record w { dead_letters = t })

  handle_decoded :
      Option (DeadLetterPublisher V T)
      → V
      → V
      → ℕ
      → Option TransactionRequest
      → Exec (Channels P M T) (Unit {0})
  unfolding reject_message
  handle_decoded producer key value now none w = reject_message producer key value w
  handle_decoded producer key value now (some request) w =
      let (r, world) = process_transaction pg c json request now w.world in
      (processing_error r, record w { world = world })

  unfoldable pub handle_message :
      Option (DeadLetterPublisher V T) → V → V → ℕ → Exec (Channels P M T) (Unit {0})
  unfolding handle_decoded
  handle_message producer key value now w = handle_decoded producer key value now (decode value) w
