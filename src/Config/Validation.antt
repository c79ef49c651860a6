-- ===== src/Config/Validation.antt =====
-- `validate` of internal/config/config.go.
use innoscripta_banking_ledg.Base.{
  String, ◌≡◌, ◌↔◌, refl, Option, none, some, List, [], ◌∷◌, ◌++◌, arith,
}
use innoscripta_banking_ledg.Config.Server.{
  ServerConfig, server_errors, IsServerConfig, server_errors-IsServerConfig, OutboxConfig,
  outbox_errors, IsOutboxConfig, outbox_errors-IsOutboxConfig, WorkerPoolConfig, worker_pool_errors,
  IsWorkerPoolConfig, worker_pool_errors-IsWorkerPoolConfig,
}
use innoscripta_banking_ledg.Config.Kafka.{
  KafkaConfig, kafka_errors, IsKafkaConfig, kafka_errors-IsKafkaConfig,
}
use innoscripta_banking_ledg.Config.Stores.{
  PostgresConfig, postgres_errors, IsPostgresConfig, postgres_errors-IsPostgresConfig,
  MongoDbConfig, mongodb_errors, IsMongoDbConfig, mongodb_errors-IsMongoDbConfig,
}

pub record ApplicationConfig : Type 0 where
  pub env : String
  pub name : String

pub record LoggingConfig : Type 0 where
  pub level : String

pub record Config : Type 0 where
  pub application : ApplicationConfig
  pub logging : LoggingConfig
  pub server : ServerConfig
  pub kafka : KafkaConfig
  pub postgres : PostgresConfig
  pub mongodb : MongoDbConfig
  pub outbox : OutboxConfig
  pub worker_pool : WorkerPoolConfig

abbrev pub validation_errors : Config → List String
validation_errors c =
    server_errors c.server
    ++ (kafka_errors c.kafka
        ++ (postgres_errors c.postgres
            ++ (mongodb_errors c.mongodb
                ++ (outbox_errors c.outbox ++ worker_pool_errors c.worker_pool))))

abbrev nil_if_empty : List String → Option (List String)
nil_if_empty [] = none
nil_if_empty (e ∷ es) = some (e ∷ es)

-- `none` is `nil`; otherwise the texts that the error joins.
unfoldable pub validate_config : Config → Option (List String)
validate_config c = nil_if_empty (validation_errors c)

nil_if_empty-none : (errors : List String) → (nil_if_empty errors ≡ none) ↔ (errors ≡ [])
nil_if_empty-none [] = (λ h. refl, λ h. refl)
nil_if_empty-none (e ∷ es) = (λ h. ground arith, λ h. ground arith)

append-nil : (xs ys : List String) → (xs ++ ys ≡ []) ↔ ((xs ≡ []) × (ys ≡ []))
append-nil [] ys = (λ h. (refl, h), λ (_, h). h)
append-nil (x ∷ xs) ys = (λ h. ground arith, λ (h, _). ground arith)

-- `validate` accepts a configuration exactly where every setting that is checked is given or positive.
pub validate_config_accepts :
    (c : Config)
    → (validate_config c ≡ none) ↔ (
        IsServerConfig c.server
        × IsKafkaConfig c.kafka
        × IsPostgresConfig c.postgres
        × IsMongoDbConfig c.mongodb
        × IsOutboxConfig c.outbox
        × IsWorkerPoolConfig c.worker_pool)
unfolding validate_config
validate_config_accepts c = (
  λ h.
      let (s, after_server) =
        (append-nil (server_errors c.server) _).0 ((nil_if_empty-none (validation_errors c)).0 h) in
      let (k, after_kafka) = (append-nil (kafka_errors c.kafka) _).0 after_server in
      let (p, after_postgres) = (append-nil (postgres_errors c.postgres) _).0 after_kafka in
      let (m, after_mongodb) = (append-nil (mongodb_errors c.mongodb) _).0 after_postgres in
      let (o, w) = (append-nil (outbox_errors c.outbox) _).0 after_mongodb in
      (
        (server_errors-IsServerConfig c.server).0 s,
        (kafka_errors-IsKafkaConfig c.kafka).0 k,
        (postgres_errors-IsPostgresConfig c.postgres).0 p,
        (mongodb_errors-IsMongoDbConfig c.mongodb).0 m,
        (outbox_errors-IsOutboxConfig c.outbox).0 o,
        (worker_pool_errors-IsWorkerPoolConfig c.worker_pool).0 w,
      ),
  λ (s, k, p, m, o, w).
      let from_outbox = (append-nil (outbox_errors c.outbox) _).1 (
        (outbox_errors-IsOutboxConfig c.outbox).1 o,
        (worker_pool_errors-IsWorkerPoolConfig c.worker_pool).1 w,
      ) in
      let from_mongodb =
        (append-nil (mongodb_errors c.mongodb) _).1
          ((mongodb_errors-IsMongoDbConfig c.mongodb).1 m, from_outbox) in
      let from_postgres =
        (append-nil (postgres_errors c.postgres) _).1
          ((postgres_errors-IsPostgresConfig c.postgres).1 p, from_mongodb) in
      let from_kafka =
        (append-nil (kafka_errors c.kafka) _).1
          ((kafka_errors-IsKafkaConfig c.kafka).1 k, from_postgres) in
      (nil_if_empty-none (validation_errors c)).1 (
        (append-nil (server_errors c.server) _).1
          ((server_errors-IsServerConfig c.server).1 s, from_kafka)),
)
