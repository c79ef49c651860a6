-- ===== src/Platform.antt =====
-- internal/platform and the drivers below it: PostgreSQL through pgx, MongoDB through its driver.
pub mod Reply
pub mod Schema
pub mod Querier
pub mod Postgres
pub mod Collection
pub mod World
pub mod Transaction
pub mod Connections
