-- ===== src/Processor.antt =====
-- internal/transaction_processor: what happens to a request that Kafka delivers.
pub mod Validator
pub mod AccountManager
pub mod OutboxManager
pub mod FailureRecorder
pub mod Journal
pub mod Service
pub mod Publisher
pub mod Poller
pub mod EventHandler
pub mod Consumer
pub mod WorkerPool
pub mod System
