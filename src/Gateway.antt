-- ===== src/Gateway.antt =====
-- internal/api_gateway/service: what the gateway does with the databases and with Kafka.
pub mod Dto
pub mod Http
pub mod AccountService
pub mod TransactionService
pub mod AccountHandler
pub mod TransactionHandler
pub mod Router
