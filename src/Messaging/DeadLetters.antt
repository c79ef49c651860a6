-- ===== src/Messaging/DeadLetters.antt =====
-- internal/platform/messaging/producers/dead_letter.go: the producer of the dead letter queue.
pub mod Lettering
use innoscripta_banking_ledg.Base.{
  ℕ, String, ◌≡◌, Bool, false, Option, none, some, [], ◌∷◌, str_eq, if◌then◌else◌,
}
use innoscripta_banking_ledg.Domain.Error.{external, wrapped}
use innoscripta_banking_ledg.Domain.Result.{Result, ok, err, Exec}
use innoscripta_banking_ledg.Config.Kafka.{KafkaConfig}
use innoscripta_banking_ledg.Platform.Reply.{Reply, done, fault}
use innoscripta_banking_ledg.Messaging.{WireMessage, WriterSettings, require_all, KafkaWriter}
use innoscripta_banking_ledg.Messaging.Topics.{KafkaConn, KafkaDialer, ensure_topic}

-- `DLQProducer`; the writer is an interface, which may be nil.
pub record DlqProducer : Type 0 where
  pub writer : Option WriterSettings
  pub dlq_topic : String

-- A pointer that may be nil.
abbrev pub dlq_producer : KafkaConfig → Result (Unit {0}) → Result (Option DlqProducer)
dlq_producer config (err e) = err e
dlq_producer config (ok _) = ok (
    some (record {
      writer = some (record {
        topic = config.dlq_topic;
        required_acks = require_all;
        async = false;
        write_timeout = config.max_wait;
      });
      dlq_topic = config.dlq_topic;
    }))

-- `NewDLQProducer`
unfoldable pub new_dlq_producer :
    {K : Type 0} → KafkaDialer K → KafkaConn K → KafkaConfig → Exec K (Option DlqProducer)
new_dlq_producer dialer conn config k =
    let (r, k') = ensure_topic dialer conn config config.dlq_topic k in
    if str_eq config.dlq_topic "" then (ok none, k) else (dlq_producer config r, k')

-- The struct that is written; keys and values are of type `V`, `string(v)` of a value is the value.
pub record DlqMessagePayload (V : Type 0) : Type 0 where
  pub original_key : V
  pub original_value : V
  pub dlq_reason : String
  pub timestamp : ℕ

pub record DlqJson (V : Type 0) : Type 0 where
  pub marshal : DlqMessagePayload V → Option V
  pub unmarshal : V → Option (DlqMessagePayload V)

-- What JSON makes of bytes that are to be a text: those that are no UTF-8 are replaced.
abbrev pub as_text : {V : Type 0} → (V → Bool) → (V → V) → V → V
as_text is_utf8 replaced v = if is_utf8 v then v else replaced v

-- What was marshalled can be read back, as far as it was UTF-8.
pub record IsDlqJson {V : Type 0} (json : DlqJson V) : Type 0 where
  pub is_utf8 : V → Bool
  pub replaced : V → V
  pub round_trip :
      (p : DlqMessagePayload V) (v : V)
      → json.marshal p ≡ some v
      → json.unmarshal v
        ≡ some (record {
          original_key = as_text is_utf8 replaced p.original_key;
          original_value = as_text is_utf8 replaced p.original_value;
          dlq_reason = p.dlq_reason;
          timestamp = p.timestamp;
        })

abbrev pub letter_written : Reply (Unit {0}) → Result (Unit {0})
letter_written (done _) = ok tt
letter_written fault = err (wrapped external)

module _ {V W : Type 0} (json : DlqJson V) (writer : KafkaWriter V W) where
  abbrev pub dlq_message : V → V → String → WireMessage V
  dlq_message key value reason = record {
    key = key;
    value = value;
    headers = ("dlq-reason", reason) ∷ [];
  }

  write_letter : V → String → Option V → Exec W (Unit {0})
  write_letter key reason none w = (err (wrapped external), w)
  write_letter key reason (some value) w =
      let (r, w') = writer.write_messages (dlq_message key value reason) w in (letter_written r, w')

  abbrev write_by : Option WriterSettings → V → String → Option V → Exec W (Unit {0})
  write_by none key reason value w = (err external, w)
  write_by (some _) key reason value w = write_letter key reason value w

  -- `none` is a panic: of a nil producer the warning takes the logger.
  unfoldable pub publish_to_dlq :
      Option DlqProducer → V → V → String → ℕ → W → Option (Result (Unit {0}) × W)
  unfolding write_letter
  publish_to_dlq none key original_message_value reason now w = none
  publish_to_dlq (some p) key original_message_value reason now w =
      let payload : DlqMessagePayload V = record {
        original_key = key;
        original_value = original_message_value;
        dlq_reason = reason;
        timestamp = now;
      } in
      some (write_by p.writer key reason (json.marshal payload) w)

  abbrev close_by : Option WriterSettings → Exec W (Unit {0})
  close_by none w = (ok tt, w)
  close_by (some _) w = let (r, w') = writer.close w in (letter_written r, w')

  unfoldable pub close : Option DlqProducer → W → Option (Result (Unit {0}) × W)
  close none w = none
  close (some p) w = some (close_by p.writer w)
