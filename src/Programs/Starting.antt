-- ===== src/Programs/Starting.antt =====
-- What a program that has started can rely on.
use innoscripta_banking_ledg.Base.{String, ◌≡◌}
use innoscripta_banking_ledg.Domain.Result.{Result, ok, err}
use innoscripta_banking_ledg.Config.Validation.{Config}
use innoscripta_banking_ledg.Config.Load.{Viper, load_config}
use innoscripta_banking_ledg.Config.Load.Layers.{IsConfig}
use innoscripta_banking_ledg.Platform.Connections.{Migrate, PoolConfig, Pgxpool, MongoDriver}
use innoscripta_banking_ledg.Platform.Connections.Opening.{IsMigrate, Opened}
use innoscripta_banking_ledg.Messaging.Topics.{KafkaConn, KafkaDialer}
use innoscripta_banking_ledg.Messaging.Topics.Existence.{IsKafkaConn, IsDialer}
use innoscripta_banking_ledg.Processor.WorkerPool.Factory.{AntsPool}
use innoscripta_banking_ledg.Programs.Producers.{Dead, Requesting}
use innoscripta_banking_ledg.Programs.{Surroundings, Processor, Gateway}

module _ {V D M K A : Type 0} (viper : Viper V) (migrate : Migrate D) (pgx : Pgxpool D)
    (i : IsMigrate migrate pgx) (driver : MongoDriver M) (dialer : KafkaDialer K)
    (conn : KafkaConn K) (k : IsKafkaConn conn) (d : IsDialer dialer k) (ants : AntsPool A) where
  -- What every program has: a valid configuration that was loaded for it, and PostgreSQL with the
  -- schema up to date.
  abbrev pub Based : String → Config → PoolConfig → D → Type 0
  Based name cfg pool postgres =
      (load_config viper name ≡ ok cfg)
      × IsConfig cfg
      × Opened migrate pgx i cfg.postgres (ok pool) postgres

  abbrev pub ProcessorReady : Result Processor → Surroundings D M K A → Type 0
  ProcessorReady (ok p) w =
      Based "transaction_processor" p.config p.postgres w.postgres
      × Dead dialer conn k d p.config.kafka (ok p.dlq_producer) w.kafka
  ProcessorReady (err _) w = Unit

  abbrev pub GatewayReady : Result Gateway → Surroundings D M K A → Type 0
  GatewayReady (ok g) w =
      Based "api_gateway" g.config g.postgres w.postgres
      × Requesting dialer conn k d g.config.kafka (ok g.producer) w.kafka
  GatewayReady (err _) w = Unit
