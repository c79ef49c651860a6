-- ===== src/Config/Server.antt =====
-- The settings of the HTTP server, the outbox and the worker pool, of internal/config/config.go.
use innoscripta_banking_ledg.Base.{ℤ, pos, ◌≤ℤ◌, String, ◌≡◌, ◌↔◌, List, [], ◌++◌, arith}
use innoscripta_banking_ledg.Config.{complaint, not_positive}

pub record ServerConfig : Type 0 where
  pub port : ℤ
  pub shutdown_timeout : ℤ
  pub read_timeout : ℤ
  pub write_timeout : ℤ
  pub idle_timeout : ℤ

abbrev pub server_errors : ServerConfig → List String
server_errors s =
    complaint (not_positive s.port) "SERVER_PORT must be greater than 0"
    ++ complaint (not_positive s.shutdown_timeout) "SERVER_SHUTDOWN_TIMEOUT must be greater than 0"
    ++ complaint (not_positive s.read_timeout) "SERVER_READ_TIMEOUT must be greater than 0"
    ++ complaint (not_positive s.write_timeout) "SERVER_WRITE_TIMEOUT must be greater than 0"
    ++ complaint (not_positive s.idle_timeout) "SERVER_IDLE_TIMEOUT must be greater than 0"

-- Every setting that is checked is given or positive.
abbrev pub IsServerConfig : ServerConfig → Type 0
IsServerConfig s =
    (pos 1 ≤ℤ s.port)
    × (pos 1 ≤ℤ s.shutdown_timeout)
    × (pos 1 ≤ℤ s.read_timeout)
    × (pos 1 ≤ℤ s.write_timeout)
    × (pos 1 ≤ℤ s.idle_timeout)

pub server_errors-IsServerConfig : (s : ServerConfig) → (server_errors s ≡ []) ↔ IsServerConfig s
server_errors-IsServerConfig s = (λ h. ground arith, λ h. ground arith)

pub record OutboxConfig : Type 0 where
  pub polling_interval : ℤ
  pub batch_size : ℤ
  pub max_retry_attempts : ℤ

abbrev pub outbox_errors : OutboxConfig → List String
outbox_errors s =
    complaint (not_positive s.polling_interval) "OUTBOX_POLLING_INTERVAL must be greater than 0"
    ++ complaint (not_positive s.batch_size) "OUTBOX_BATCH_SIZE must be greater than 0"
    ++ complaint (not_positive s.max_retry_attempts)
        "OUTBOX_MAX_RETRY_ATTEMPTS must be greater than 0"

-- Every setting that is checked is given or positive.
abbrev pub IsOutboxConfig : OutboxConfig → Type 0
IsOutboxConfig s =
    (pos 1 ≤ℤ s.polling_interval) × (pos 1 ≤ℤ s.batch_size) × (pos 1 ≤ℤ s.max_retry_attempts)

pub outbox_errors-IsOutboxConfig : (s : OutboxConfig) → (outbox_errors s ≡ []) ↔ IsOutboxConfig s
outbox_errors-IsOutboxConfig s = (λ h. ground arith, λ h. ground arith)

pub record WorkerPoolConfig : Type 0 where
  pub size : ℤ

abbrev pub worker_pool_errors : WorkerPoolConfig → List String
worker_pool_errors s = complaint (not_positive s.size) "WORKER_POOL_SIZE must be greater than 0"

-- Every setting that is checked is given or positive.
abbrev pub IsWorkerPoolConfig : WorkerPoolConfig → Type 0
IsWorkerPoolConfig s = (pos 1 ≤ℤ s.size)

pub worker_pool_errors-IsWorkerPoolConfig :
    (s : WorkerPoolConfig) → (worker_pool_errors s ≡ []) ↔ IsWorkerPoolConfig s
worker_pool_errors-IsWorkerPoolConfig s = (λ h. ground arith, λ h. ground arith)
