-- ===== src/Messaging/Topics.antt =====
-- internal/platform/messaging/producers/utils.go: a topic is created where it is missing.
pub mod Existence
use innoscripta_banking_ledg.Base.{
  ℕ, zero, suc, ℤ, pos, eqb_ℤ, ◌==◌, String, Bool, true, false, if◌then◌else◌,
}
use innoscripta_banking_ledg.Domain.Error.{external, wrapped}
use innoscripta_banking_ledg.Domain.Result.{Result, ok, err, Exec}
use innoscripta_banking_ledg.Config.Kafka.{KafkaConfig}
use innoscripta_banking_ledg.Platform.Reply.{Reply, done, fault}

-- What `ReadPartitions` comes back with: how many partitions, and whether with an error.
pub record Partitions : Type 0 where
  pub number : ℕ
  pub failed : Bool

pub record TopicConfig : Type 0 where
  pub topic : String
  pub num_partitions : ℤ
  pub replication_factor : ℤ

-- `*kafka.Conn`, on the state behind it.
pub record KafkaConn (K : Type 0) : Type 0 where
  pub read_partitions : String → K → Partitions × K
  pub create_topics : TopicConfig → K → Reply (Unit {0}) × K

abbrev pub or_one : ℤ → ℤ
or_one n = if eqb_ℤ n (pos 0) then pos 1 else n

abbrev pub topic_config : String → ℤ → ℤ → TopicConfig
topic_config topic num_partitions replication_factor = record {
  topic = topic;
  num_partitions = or_one num_partitions;
  replication_factor = or_one replication_factor;
}

module _ {K : Type 0} (conn : KafkaConn K) (topic : String) where
  -- The loop over the attempts that are left; `last` is what the one before came back with.
  read_attempts : ℕ → Partitions → K → Partitions × K
  read_attempts zero last k = (last, k)
  read_attempts (suc n) last k =
      let (found, k') = conn.read_partitions topic k in
      elim found.failed [ false ↦ (found, k') | true ↦ read_attempts n found k' ]

  abbrev creation : Reply (Unit {0}) → Result (Unit {0})
  creation (done _) = ok tt
  creation fault = err (wrapped external)

  create_if_missing : ℤ → ℤ → Partitions → Exec K (Unit {0})
  create_if_missing num_partitions replication_factor found k =
      if found.number == 0
      then (let (r, k') =
            conn.create_topics (topic_config topic num_partitions replication_factor) k in
          (creation r, k'))
      else (ok tt, k)

  -- At most five attempts.
  unfoldable pub create_kafka_topic_if_not_exists : ℤ → ℤ → Exec K (Unit {0})
  unfolding read_attempts create_if_missing
  create_kafka_topic_if_not_exists num_partitions replication_factor k =
      let (found, k') = read_attempts 5 (record { number = 0; failed = false }) k in
      create_if_missing num_partitions replication_factor found k'

-- `kafka.Dial` and `Close` of what it opens.
pub record KafkaDialer (K : Type 0) : Type 0 where
  pub dial : String → K → Reply (Unit {0}) × K
  pub close : K → K

abbrev pub ensured : Result (Unit {0}) → Result (Unit {0})
ensured (ok _) = ok tt
ensured (err e) = err (wrapped e)

-- What both constructors of a producer do before they make its writer.
module _ {K : Type 0} (dialer : KafkaDialer K) (conn : KafkaConn K) (config : KafkaConfig)
    (topic : String) where
  after_dial : Reply (Unit {0}) → Exec K (Unit {0})
  after_dial fault k = (err (wrapped external), k)
  after_dial (done _) k =
      let (r, k') =
        create_kafka_topic_if_not_exists conn topic config.num_partitions config.replication_factor
          k in
      (ensured r, dialer.close k')

  unfoldable pub ensure_topic : Exec K (Unit {0})
  unfolding after_dial
  ensure_topic k = let (r, k') = dialer.dial config.brokers k in after_dial r k'
