-- ===== src/Platform/Connections.antt =====
-- internal/platform/persistence: migrations.go, mongo.go and the connection of postgres.go. The
-- packages migrate, pgxpool and mongo-driver are parameters of the model.
pub mod Opening
use Prim.Native.String.{◌++◌ as append}
use innoscripta_banking_ledg.Base.{ℕ, ℤ, String, Option, none, some, str_eq, if◌then◌else◌}
use innoscripta_banking_ledg.Domain.Error.{external, wrapped}
use innoscripta_banking_ledg.Domain.Result.{Result, ok, err, Exec}
use innoscripta_banking_ledg.Platform.Reply.{Reply, done, fault}
use innoscripta_banking_ledg.Config.Stores.{PostgresConfig, MongoDbConfig}

-- What `Up` comes back with: no error, `ErrNoChange`, or another error.
pub data Upped : Type 0 where
  upped no_change up_failed : Upped

-- `migrate.New`, with the source and the database, `Up` and `Close`, which may fail for the source
-- and for the database.
pub record Migrate (D : Type 0) : Type 0 where
  pub new : String → String → D → Reply (Unit {0}) × D
  pub up : D → Upped × D
  pub close : D → (Reply (Unit {0}) × Reply (Unit {0})) × D

module _ {D : Type 0} (migrate : Migrate D) where
  abbrev migrations_closed : Reply (Unit {0}) → Reply (Unit {0}) → Result (Unit {0})
  migrations_closed fault _ = err (wrapped external)
  migrations_closed (done _) fault = err (wrapped external)
  migrations_closed (done _) (done _) = ok tt

  close_migrations : Exec D (Unit {0})
  close_migrations d =
      let ((source, database), d') = migrate.close d in (migrations_closed source database, d')

  after_up : Upped → Exec D (Unit {0})
  unfolding close_migrations
  after_up upped d = close_migrations d
  after_up no_change d = close_migrations d
  after_up up_failed d = (err (wrapped external), d)

  after_new : Reply (Unit {0}) → Exec D (Unit {0})
  unfolding after_up
  after_new fault d = (err (wrapped external), d)
  after_new (done _) d = let (r, d') = migrate.up d in after_up r d'

  -- `RunMigrations`
  unfoldable pub run_migrations : String → String → Exec D (Unit {0})
  unfolding after_new
  run_migrations database_url migrations_path d =
      let (r, d') = migrate.new (append "file://" migrations_path) database_url d in
      if str_eq migrations_path ""
      then (err external, d)
      else if str_eq database_url ""
      then (err external, d)
      else after_new r d'

-- `pgxpool.Config`, as far as the program sets it
pub record PoolConfig : Type 0 where
  pub conn_string : String
  pub max_conns : ℤ
  pub min_conns : ℤ
  pub max_conn_lifetime : ℤ
  pub max_conn_idle_time : ℤ

-- `ParseConfig`, `NewWithConfig`, `Ping` and `Close` of the pool
pub record Pgxpool (D : Type 0) : Type 0 where
  pub parse_config : String → Option PoolConfig
  pub new_with_config : PoolConfig → D → Reply (Unit {0}) × D
  pub ping : D → Reply (Unit {0}) × D
  pub close : D → D

abbrev pub configured : PostgresConfig → PoolConfig → PoolConfig
configured cfg pool_config = record pool_config {
  max_conns = cfg.max_conns;
  min_conns = cfg.min_conns;
  max_conn_lifetime = cfg.conn_max_lifetime;
  max_conn_idle_time = cfg.conn_max_idle_time;
}

module _ {D : Type 0} (migrate : Migrate D) (pgx : Pgxpool D) where
  abbrev pub pinged : PoolConfig → Reply (Unit {0}) → Result PoolConfig
  pinged pool (done _) = ok pool
  pinged pool fault = err (wrapped external)

  after_pool : PoolConfig → Reply (Unit {0}) → Exec D PoolConfig
  after_pool pool_config fault d = (err (wrapped external), d)
  after_pool pool_config (done _) d = let (r, d') = pgx.ping d in (pinged pool_config r, d')

  after_parse : PostgresConfig → Option PoolConfig → Exec D PoolConfig
  unfolding after_pool
  after_parse cfg none d = (err (wrapped external), d)
  after_parse cfg (some pool_config) d =
      let (r, d') = pgx.new_with_config (configured cfg pool_config) d in
      after_pool (configured cfg pool_config) r d'

  after_migrations : PostgresConfig → Result (Unit {0}) → Exec D PoolConfig
  unfolding after_parse
  after_migrations cfg (err e) d = (err e, d)
  after_migrations cfg (ok _) d = after_parse cfg (pgx.parse_config cfg.url) d

  -- `NewPostgresDB`; a `*PostgresDB` is what its pool is configured with.
  unfoldable pub new_postgres_db : PostgresConfig → Exec D PoolConfig
  unfolding after_migrations
  new_postgres_db cfg d =
      let (r, d') = run_migrations migrate cfg.url cfg.migrations_path d in
      after_migrations cfg r d'

-- `options.Client()`, as far as the program sets it
pub record ClientOptions : Type 0 where
  pub uri : String
  pub max_pool_size : ℕ
  pub min_pool_size : ℕ
  pub max_conn_idle_time : ℤ

-- `mongo.Connect`, `Ping` within a timeout, and `Disconnect`
pub record MongoDriver (M : Type 0) : Type 0 where
  pub connect : ClientOptions → M → Reply (Unit {0}) × M
  pub ping : ℤ → M → Reply (Unit {0}) × M
  pub disconnect : M → Reply (Unit {0}) × M

pub record MongoDb : Type 0 where
  pub client : ClientOptions
  pub database : String

abbrev pub mongo_of : MongoDbConfig → MongoDb
mongo_of cfg = record {
  client = record {
    uri = cfg.uri;
    max_pool_size = cfg.max_pool_size;
    min_pool_size = cfg.min_pool_size;
    max_conn_idle_time = cfg.max_conn_idle_time;
  };
  database = cfg.database;
}

module _ {M : Type 0} (driver : MongoDriver M) where
  abbrev ping_answered : MongoDb → Reply (Unit {0}) → Result MongoDb
  ping_answered db (done _) = ok db
  ping_answered db fault = err (wrapped external)

  after_connect : MongoDbConfig → Reply (Unit {0}) → Exec M MongoDb
  after_connect cfg fault m = (err (wrapped external), m)
  after_connect cfg (done _) m =
      let (r, m') = driver.ping cfg.timeout m in (ping_answered (mongo_of cfg) r, m')

  -- `NewMongoDB`
  unfoldable pub new_mongo_db : MongoDbConfig → Exec M MongoDb
  unfolding after_connect
  new_mongo_db cfg m =
      let (r, m') = driver.connect (mongo_of cfg).client m in after_connect cfg r m'

  abbrev disconnected : Reply (Unit {0}) → Result (Unit {0})
  disconnected (done _) = ok tt
  disconnected fault = err (wrapped external)

  unfoldable pub close_mongo_db : Exec M (Unit {0})
  close_mongo_db m = let (r, m') = driver.disconnect m in (disconnected r, m')
