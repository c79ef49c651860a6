-- ===== src/Config/Kafka.antt =====
-- The settings of Kafka, of internal/config/config.go.
use innoscripta_banking_ledg.Base.{
  ℤ, pos, ◌≤ℤ◌, String, ◌≡◌, ◌≢◌, ◌↔◌, List, [], ◌++◌, eq_iff, arith,
}
use innoscripta_banking_ledg.Config.{complaint, not_positive, empty}

pub record KafkaConfig : Type 0 where
  pub brokers : String
  pub transaction_topic : String
  pub num_partitions : ℤ
  pub replication_factor : ℤ
  pub consumer_group : String
  pub min_bytes : ℤ
  pub max_bytes : ℤ
  pub max_wait : ℤ
  pub start_offset : ℤ
  pub dlq_topic : String

abbrev pub kafka_errors : KafkaConfig → List String
kafka_errors s =
    complaint (empty s.brokers) "KAFKA_BROKERS is required"
    ++ complaint (empty s.transaction_topic) "KAFKA_TRANSACTION_TOPIC is required"
    ++ complaint (empty s.consumer_group) "KAFKA_CONSUMER_GROUP is required"
    ++ complaint (not_positive s.min_bytes) "KAFKA_CONSUMER_MIN_BYTES must be greater than 0"
    ++ complaint (not_positive s.max_bytes) "KAFKA_CONSUMER_MAX_BYTES must be greater than 0"
    ++ complaint (not_positive s.max_wait) "KAFKA_CONSUMER_MAX_WAIT must be greater than 0"
    ++ complaint (empty s.dlq_topic) "KAFKA_DLQ_TOPIC is required"

-- Every setting that is checked is given or positive.
abbrev pub IsKafkaConfig : KafkaConfig → Type 0
IsKafkaConfig s =
    (s.brokers ≢ "")
    × (s.transaction_topic ≢ "")
    × (s.consumer_group ≢ "")
    × (pos 1 ≤ℤ s.min_bytes)
    × (pos 1 ≤ℤ s.max_bytes)
    × (pos 1 ≤ℤ s.max_wait)
    × (s.dlq_topic ≢ "")

pub kafka_errors-IsKafkaConfig : (s : KafkaConfig) → (kafka_errors s ≡ []) ↔ IsKafkaConfig s
kafka_errors-IsKafkaConfig s = (
  λ h. ground (
    arith,
    eq_iff s.brokers "",
    eq_iff s.transaction_topic "",
    eq_iff s.consumer_group "",
    eq_iff s.dlq_topic "",
  ),
  λ h. ground (
    arith,
    eq_iff s.brokers "",
    eq_iff s.transaction_topic "",
    eq_iff s.consumer_group "",
    eq_iff s.dlq_topic "",
  ),
)
