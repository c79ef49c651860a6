-- ===== src/Programs.antt =====
-- cmd/transaction_processor/main.go and cmd/api_gateway/main.go: how the two programs start. An error
-- of a start is the end of the program. What lies behind the databases, behind Kafka and behind the
-- worker pool is the state.
pub mod Producers
pub mod Starting
pub mod Stopping
use innoscripta_banking_ledg.Base.{ℤ, String, Option}
use innoscripta_banking_ledg.Domain.Result.{Result, ok, err, Exec}
use innoscripta_banking_ledg.Config.Server.{ServerConfig, OutboxConfig}
use innoscripta_banking_ledg.Config.Validation.{Config}
use innoscripta_banking_ledg.Config.Load.{Viper, load_config}
use innoscripta_banking_ledg.Platform.Connections.{
  Migrate, PoolConfig, Pgxpool, new_postgres_db, MongoDriver, MongoDb, new_mongo_db,
}
use innoscripta_banking_ledg.Messaging.Topics.{KafkaConn, KafkaDialer}
use innoscripta_banking_ledg.Messaging.Requests.{
  TransactionReqMessageProducer, new_transaction_req_message_producer,
}
use innoscripta_banking_ledg.Messaging.DeadLetters.{DlqProducer, new_dlq_producer}
use innoscripta_banking_ledg.Processor.Consumer.{ReaderConfig, new_kafka_consumer}
use innoscripta_banking_ledg.Processor.Poller.{Poller}
use innoscripta_banking_ledg.Processor.WorkerPool.Factory.{
  AntsPool, ProcessingService, create_processing_service,
}

pub record Surroundings (D M K A : Type 0) : Type 0 where
  pub postgres : D
  pub mongo : M
  pub kafka : K
  pub pool : A

-- The processor when its two loops are about to start.
pub record Processor : Type 0 where
  pub config : Config
  pub postgres : PoolConfig
  pub mongo : MongoDb
  pub consumer : ReaderConfig
  pub dlq_producer : Option DlqProducer
  pub service : ProcessingService
  pub poller : Poller

-- `NewPoller`
abbrev pub new_poller : OutboxConfig → Poller
new_poller cfg = record { batch_size = cfg.batch_size; max_retry_attempts = cfg.max_retry_attempts }

-- `NewServer`: the settings of the HTTP server.
pub record HttpServer : Type 0 where
  pub port : ℤ
  pub read_timeout : ℤ
  pub write_timeout : ℤ
  pub idle_timeout : ℤ

abbrev pub new_server : ServerConfig → HttpServer
new_server cfg = record {
  port = cfg.port;
  read_timeout = cfg.read_timeout;
  write_timeout = cfg.write_timeout;
  idle_timeout = cfg.idle_timeout;
}

-- The gateway when its server is about to listen.
pub record Gateway : Type 0 where
  pub config : Config
  pub postgres : PoolConfig
  pub mongo : MongoDb
  pub producer : TransactionReqMessageProducer
  pub server : HttpServer

module _ {V D M K A : Type 0} (viper : Viper V) (migrate : Migrate D) (pgx : Pgxpool D)
    (driver : MongoDriver M) (dialer : KafkaDialer K) (conn : KafkaConn K) (ants : AntsPool A) where
  abbrev Start : Type 0 → Type 0
  Start P = Exec (Surroundings D M K A) P

  after_dlq_producer : Config → PoolConfig → MongoDb → Result (Option DlqProducer) → Start Processor
  after_dlq_producer cfg db mongo (err e) w = (err e, w)
  after_dlq_producer cfg db mongo (ok dlq_producer) w =
      let (service, pool) = create_processing_service ants cfg w.pool in
      (
        ok (record {
          config = cfg;
          postgres = db;
          mongo = mongo;
          consumer = new_kafka_consumer cfg.kafka;
          dlq_producer = dlq_producer;
          service = service;
          poller = new_poller cfg.outbox;
        }),
        record w { pool = pool },
      )

  processor_after_mongo : Config → PoolConfig → Result MongoDb → Start Processor
  unfolding after_dlq_producer
  processor_after_mongo cfg db (err e) w = (err e, w)
  processor_after_mongo cfg db (ok mongo) w =
      let (r, kafka) = new_dlq_producer dialer conn cfg.kafka w.kafka in
      after_dlq_producer cfg db mongo r (record w { kafka = kafka })

  processor_after_postgres : Config → Result PoolConfig → Start Processor
  unfolding processor_after_mongo
  processor_after_postgres cfg (err e) w = (err e, w)
  processor_after_postgres cfg (ok db) w =
      let (r, mongo) = new_mongo_db driver cfg.mongodb w.mongo in
      processor_after_mongo cfg db r (record w { mongo = mongo })

  processor_after_config : Result Config → Start Processor
  unfolding processor_after_postgres
  processor_after_config (err e) w = (err e, w)
  processor_after_config (ok cfg) w =
      let (r, postgres) = new_postgres_db migrate pgx cfg.postgres w.postgres in
      processor_after_postgres cfg r (record w { postgres = postgres })

  unfoldable pub start_processor : Start Processor
  unfolding processor_after_config
  start_processor w = processor_after_config (load_config viper "transaction_processor") w

  abbrev gateway_of :
      Config → PoolConfig → MongoDb → Result TransactionReqMessageProducer → Result Gateway
  gateway_of cfg db mongo (err e) = err e
  gateway_of cfg db mongo (ok producer) = ok (record {
    config = cfg;
    postgres = db;
    mongo = mongo;
    producer = producer;
    server = new_server cfg.server;
  })

  gateway_after_mongo : Config → PoolConfig → Result MongoDb → Start Gateway
  gateway_after_mongo cfg db (err e) w = (err e, w)
  gateway_after_mongo cfg db (ok mongo) w =
      let (r, kafka) = new_transaction_req_message_producer dialer conn cfg.kafka w.kafka in
      (gateway_of cfg db mongo r, record w { kafka = kafka })

  gateway_after_postgres : Config → Result PoolConfig → Start Gateway
  unfolding gateway_after_mongo
  gateway_after_postgres cfg (err e) w = (err e, w)
  gateway_after_postgres cfg (ok db) w =
      let (r, mongo) = new_mongo_db driver cfg.mongodb w.mongo in
      gateway_after_mongo cfg db r (record w { mongo = mongo })

  gateway_after_config : Result Config → Start Gateway
  unfolding gateway_after_postgres
  gateway_after_config (err e) w = (err e, w)
  gateway_after_config (ok cfg) w =
      let (r, postgres) = new_postgres_db migrate pgx cfg.postgres w.postgres in
      gateway_after_postgres cfg r (record w { postgres = postgres })

  unfoldable pub start_gateway : Start Gateway
  unfolding gateway_after_config
  start_gateway w = gateway_after_config (load_config viper "api_gateway") w
