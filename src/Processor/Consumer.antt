-- ===== src/Processor/Consumer.antt =====
-- internal/platform/messaging/consumers/consumer.go: the consumer. `fetch_loop` is the loop of
-- `Subscribe` with its fetches; `subscribe` is what it does with the messages that it gets.
pub mod Commits
pub mod Fetching
use innoscripta_banking_ledg.Base.{ℕ, ℤ, negsuc, String, Bool, true, false, List, [], ◌∷◌}
use innoscripta_banking_ledg.Domain.Error.{external}
use innoscripta_banking_ledg.Domain.Result.{Result, ok, err, Exec}
use innoscripta_banking_ledg.Config.Kafka.{KafkaConfig}
use innoscripta_banking_ledg.Platform.Reply.{Reply, done, fault}

pub record KafkaMessage (V : Type 0) : Type 0 where
  pub offset : ℕ
  pub key : V
  pub value : V

-- `CommitMessages` of the reader, on the state behind it.
pub record Reader (K : Type 0) : Type 0 where
  pub commit_messages : ℕ → K → Reply (Unit {0}) × K

-- The state of the handler and that of the reader.
pub record Session (S K : Type 0) : Type 0 where
  pub handled : S
  pub reader : K

-- What a round of the loop meets: a context that is done, a message, or an error of the fetch, with
-- a context that goes on or is done by then.
pub data Round (V : Type 0) : Type 0 where
  cancelled : Round V
  fetched : KafkaMessage V → Round V
  fetch_failed fetch_cancelled : Round V

module _ {V S K : Type 0} (reader : Reader K) (handler : V → V → Exec S (Unit {0})) where
  -- An error of the commit is only logged.
  commit_if : ℕ → Result (Unit {0}) → S → K → Session S K
  commit_if offset (err _) s k = record { handled = s; reader = k }
  commit_if offset (ok _) s k =
      let (_, k') = reader.commit_messages offset k in record { handled = s; reader = k' }

  consume : KafkaMessage V → Session S K → Session S K
  unfolding commit_if
  consume msg w =
      let (r, s) = handler msg.key msg.value w.handled in commit_if msg.offset r s w.reader

  unfoldable pub subscribe : List (KafkaMessage V) → Session S K → Session S K
  unfolding consume
  subscribe [] w = w
  subscribe (msg ∷ messages) w = subscribe messages (consume msg w)

  -- The rounds that come; the truth value says whether the loop has come to its end.
  unfoldable pub fetch_loop : List (Round V) → Session S K → Bool × Session S K
  unfolding consume
  fetch_loop [] w = (false, w)
  fetch_loop (cancelled ∷ rounds) w = (true, w)
  fetch_loop (fetched msg ∷ rounds) w = fetch_loop rounds (consume msg w)
  fetch_loop (fetch_failed ∷ rounds) w = fetch_loop rounds w
  fetch_loop (fetch_cancelled ∷ rounds) w = (true, w)

-- `kafka.ReaderConfig`
pub record ReaderConfig : Type 0 where
  pub brokers : List String
  pub topic : String
  pub group_id : String
  pub min_bytes : ℤ
  pub max_bytes : ℤ
  pub max_wait : ℤ
  pub start_offset : ℤ

-- `kafka.FirstOffset`
abbrev first_offset : ℤ
first_offset = negsuc 1

-- `NewKafkaConsumer`
abbrev pub new_kafka_consumer : KafkaConfig → ReaderConfig
new_kafka_consumer cfg = record {
  brokers = cfg.brokers ∷ [];
  topic = cfg.transaction_topic;
  group_id = cfg.consumer_group;
  min_bytes = cfg.min_bytes;
  max_bytes = cfg.max_bytes;
  max_wait = cfg.max_wait;
  start_offset = first_offset;
}

-- `Close` gives back what the reader gives back.
abbrev reader_closed : Reply (Unit {0}) → Result (Unit {0})
reader_closed (done _) = ok tt
reader_closed fault = err external

abbrev pub close_consumer : {K : Type 0} → (K → Reply (Unit {0}) × K) → Exec K (Unit {0})
close_consumer close k = let (r, k') = close k in (reader_closed r, k')
