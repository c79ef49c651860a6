-- ===== src/Processor/EventHandler/DeadLetters.antt =====
-- The event handler over the producer of the dead letter queue: what becomes of a message that cannot
-- be read.
use innoscripta_banking_ledg.Base.{ℕ, String, Option, none, some}
use innoscripta_banking_ledg.Domain.Result.{Result, ok, err}
use innoscripta_banking_ledg.Platform.Reply.{Reply, done, fault}
use innoscripta_banking_ledg.Platform.Postgres.{Postgres}
use innoscripta_banking_ledg.Platform.Collection.{Collection}
use innoscripta_banking_ledg.Messaging.{KafkaWriter, WriterSettings}
use innoscripta_banking_ledg.Messaging.DeadLetters.{DlqProducer, DlqJson, publish_to_dlq}
use innoscripta_banking_ledg.Processor.EventHandler.{DeadLetterPublisher}

module _ {V W : Type 0} (json : DlqJson V) (writer : KafkaWriter V W) (settings : WriterSettings)
    (topic reason : String) (now : ℕ) where
  abbrev pub made_producer : DlqProducer
  made_producer = record { writer = some settings; dlq_topic = topic }

  abbrev pub reply_of : Result (Unit {0}) → Reply (Unit {0})
  reply_of (ok _) = done tt
  reply_of (err _) = fault

  -- A panic ends the call; there is none of a producer that is made.
  abbrev answer_of : W → Option (Result (Unit {0}) × W) → Reply (Unit {0}) × W
  answer_of w none = (fault, w)
  answer_of w (some (r, w')) = (reply_of r, w')

  -- The producer as the event handler sees it.
  unfoldable pub dlq_publisher : DeadLetterPublisher V W
  dlq_publisher = record {
    publish_to_dlq = λ key value w.
        answer_of w (publish_to_dlq json writer (some made_producer) key value reason now w);
  }
