-- ===== src/Config/Stores.antt =====
-- The settings of the databases, of internal/config/config.go.
use innoscripta_banking_ledg.Base.{
  ℕ, ℤ, pos, ◌≤ℤ◌, ◌≤◌, String, ◌≡◌, ◌≢◌, ◌↔◌, List, [], ◌++◌, ◌==◌, eq_iff, arith,
}
use innoscripta_banking_ledg.Config.{complaint, not_positive, empty}

pub record PostgresConfig : Type 0 where
  pub url : String
  pub max_conns : ℤ
  pub min_conns : ℤ
  pub conn_max_lifetime : ℤ
  pub conn_max_idle_time : ℤ
  pub migrations_path : String

abbrev pub postgres_errors : PostgresConfig → List String
postgres_errors s =
    complaint (empty s.url) "POSTGRES_URL is required"
    ++ complaint (not_positive s.max_conns) "POSTGRES_MAX_CONNS must be greater than 0"
    ++ complaint (not_positive s.min_conns) "POSTGRES_MIN_CONNS must be greater than 0"
    ++ complaint (not_positive s.conn_max_lifetime)
        "POSTGRES_MAX_CONN_LIFETIME must be greater than 0"
    ++ complaint (not_positive s.conn_max_idle_time)
        "POSTGRES_MAX_CONN_IDLE_TIME must be greater than 0"

-- Every setting that is checked is given or positive.
abbrev pub IsPostgresConfig : PostgresConfig → Type 0
IsPostgresConfig s =
    (s.url ≢ "")
    × (pos 1 ≤ℤ s.max_conns)
    × (pos 1 ≤ℤ s.min_conns)
    × (pos 1 ≤ℤ s.conn_max_lifetime)
    × (pos 1 ≤ℤ s.conn_max_idle_time)

pub postgres_errors-IsPostgresConfig :
    (s : PostgresConfig) → (postgres_errors s ≡ []) ↔ IsPostgresConfig s
postgres_errors-IsPostgresConfig s =
    (λ h. ground (arith, eq_iff s.url ""), λ h. ground (arith, eq_iff s.url ""))

pub record MongoDbConfig : Type 0 where
  pub uri : String
  pub database : String
  pub timeout : ℤ
  pub max_pool_size : ℕ
  pub min_pool_size : ℕ
  pub max_conn_idle_time : ℤ

abbrev pub mongodb_errors : MongoDbConfig → List String
mongodb_errors s =
    complaint (empty s.uri) "MONGO_URI is required"
    ++ complaint (empty s.database) "MONGO_DATABASE is required"
    ++ complaint (not_positive s.timeout) "MONGO_TIMEOUT must be greater than 0"
    ++ complaint (s.max_pool_size == 0) "MONGO_MAX_POOL_SIZE must be greater than 0"
    ++ complaint (s.min_pool_size == 0) "MONGO_MIN_POOL_SIZE must be greater than 0"
    ++ complaint (not_positive s.max_conn_idle_time)
        "MONGO_MAX_CONN_IDLE_TIME must be greater than 0"

-- Every setting that is checked is given or positive.
abbrev pub IsMongoDbConfig : MongoDbConfig → Type 0
IsMongoDbConfig s =
    (s.uri ≢ "")
    × (s.database ≢ "")
    × (pos 1 ≤ℤ s.timeout)
    × (1 ≤ s.max_pool_size)
    × (1 ≤ s.min_pool_size)
    × (pos 1 ≤ℤ s.max_conn_idle_time)

pub mongodb_errors-IsMongoDbConfig :
    (s : MongoDbConfig) → (mongodb_errors s ≡ []) ↔ IsMongoDbConfig s
mongodb_errors-IsMongoDbConfig s = (
  λ h. ground (arith, eq_iff s.uri "", eq_iff s.database ""),
  λ h. ground (arith, eq_iff s.uri "", eq_iff s.database ""),
)
