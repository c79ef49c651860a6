-- ===== src/Messaging.antt =====
-- internal/platform/messaging/producers: the two producers and the creation of their topics. The
-- client of Kafka (segmentio/kafka-go) and encoding/json are parameters of the model.
pub mod Topics
pub mod Requests
pub mod DeadLetters
use innoscripta_banking_ledg.Base.{ℕ, ℤ, String, ◌≡◌, ◌⊎◌, Bool, List, [], ◌∷◌, ◌++◌}
use innoscripta_banking_ledg.Platform.Reply.{Reply}

-- `kafka.Message`; a header is a key and a value.
pub record WireMessage (V : Type 0) : Type 0 where
  pub key : V
  pub value : V
  pub headers : List (String × String)

-- The settings of a `kafka.Writer` that bear on what a write means.
pub data RequiredAcks : Type 0 where
  require_one require_all : RequiredAcks

pub record WriterSettings : Type 0 where
  pub topic : String
  pub required_acks : RequiredAcks
  pub async : Bool
  pub write_timeout : ℤ

-- `KafkaWriter`, on the state behind it.
pub record KafkaWriter (V W : Type 0) : Type 0 where
  pub write_messages : WireMessage V → W → Reply (Unit {0}) × W
  pub close : W → Reply (Unit {0}) × W
