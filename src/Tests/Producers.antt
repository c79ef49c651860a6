-- ===== src/Tests/Producers.antt =====
-- The producers over a Kafka in memory.
use innoscripta_banking_ledg.Base.{
  ℕ, ◌≤◌, ltb, pos, String, ◌≡◌, ◌⊎◌, refl, Bool, true, false, Option, some, none, List, [], ◌∷◌,
  ◌++◌, if◌then◌else◌, arith,
}
use innoscripta_banking_ledg.Domain.Shared.{TransactionRequest}
use innoscripta_banking_ledg.Platform.Reply.{done}
use innoscripta_banking_ledg.Messaging.{WireMessage, KafkaWriter, WriterSettings, require_all}
use innoscripta_banking_ledg.Messaging.Topics.{
  KafkaConn, KafkaDialer, create_kafka_topic_if_not_exists,
}
use innoscripta_banking_ledg.Messaging.Topics.Existence.{
  IsKafkaConn, IsDialer, Ensured, create_kafka_topic-Ensured,
}
use innoscripta_banking_ledg.Messaging.DeadLetters.{DlqMessagePayload, DlqJson, as_text}
use innoscripta_banking_ledg.Messaging.DeadLetters.Lettering.{IsSyncWriter}
use innoscripta_banking_ledg.Processor.EventHandler.{Channels}
use innoscripta_banking_ledg.Tests.InMemory.{Store, Documents}
use innoscripta_banking_ledg.Tests.Samples.{world}

-- A broker with one topic, which is there or not.
abbrev pub one_topic : KafkaConn Bool
one_topic = record {
  read_partitions = λ topic k. (record { number = if k then 1 else 0; failed = false }, k);
  create_topics = λ config k. (done tt, true);
}

pub one_partition : (k : Bool) → 1 ≤ (if k then 1 else 0) → k ≡ true
one_partition k h = ground arith

unfoldable pub one_topic-IsKafkaConn : IsKafkaConn one_topic
one_topic-IsKafkaConn = record {
  has_topic = λ topic k. k;
  read_shows = λ topic k h. one_partition k h;
  read_keeps = λ topic other k h. h;
  create_makes = λ config k. refl;
  create_keeps = λ config other k h. refl;
}

create_kafka_topic-Ensured_example :
    let (r, k) = create_kafka_topic_if_not_exists one_topic "requests" (pos 0) (pos 1) false in
    Ensured one_topic one_topic-IsKafkaConn "requests" r k × (String → (false ≡ false) ⊎ (k ≡ true))
unfolding one_topic-IsKafkaConn
create_kafka_topic-Ensured_example =
    create_kafka_topic-Ensured one_topic one_topic-IsKafkaConn "requests" (pos 0) (pos 1) false

abbrev pub dialer : KafkaDialer Bool
dialer = record { dial = λ brokers k. (done tt, k); close = λ k. k }

pub dialer-IsDialer : IsDialer dialer one_topic-IsKafkaConn
dialer-IsDialer = record { close_keeps = λ other k. refl }

-- Keys, requests and dead letters.
data Bytes : Type 0 where
  raw : ℕ → Bytes
  written_request : TransactionRequest → Bytes
  letter : Bytes → Bytes → String → ℕ → Bytes

-- A topic is the list of its messages.
abbrev list_writer : KafkaWriter Bytes (List (WireMessage Bytes))
list_writer = record { write_messages = λ m w. (done tt, w ++ m ∷ []); close = λ w. (done tt, w) }

unfoldable list_writer-IsSyncWriter : IsSyncWriter list_writer
list_writer-IsSyncWriter = record { messages = λ w. w; write_stores = λ m w. refl }

abbrev read_request : Bytes → Option TransactionRequest
read_request (written_request r) = some r
read_request _ = none

-- Small numbers are UTF-8, others are replaced by one that is.
abbrev is_ascii : Bytes → Bool
is_ascii (raw n) = ltb n 128
is_ascii _ = true

abbrev replaced : Bytes → Bytes
replaced _ = raw 63

abbrev ascii : Bytes → Bytes
ascii = as_text is_ascii replaced

abbrev write_payload : DlqMessagePayload Bytes → Option Bytes
write_payload p =
    some (letter (ascii p.original_key) (ascii p.original_value) p.dlq_reason p.timestamp)

abbrev read_payload : Bytes → Option (DlqMessagePayload Bytes)
read_payload (letter key value reason now) =
    some
      (record { original_key = key; original_value = value; dlq_reason = reason; timestamp = now })
read_payload _ = none

abbrev dlq_json : DlqJson Bytes
dlq_json = record { marshal = write_payload; unmarshal = read_payload }

abbrev shown : DlqMessagePayload Bytes → DlqMessagePayload Bytes
shown p = record p { original_key = ascii p.original_key; original_value = ascii p.original_value }

abbrev all_replicas : WriterSettings
all_replicas = record {
  topic = "dead";
  required_acks = require_all;
  async = false;
  write_timeout = pos 1;
}

abbrev empty_channels : Channels Store Documents (List (WireMessage Bytes))
empty_channels = record { world = world; dead_letters = [] }
