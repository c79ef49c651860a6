-- ===== src/Data.antt =====
-- internal/data: the repositories.
pub mod AccountRepository
pub mod OutboxRepository
pub mod LedgerRepository
