-- ===== src/Domain.antt =====
-- internal/domain: the data and the errors that every other part names.
pub mod Shared
pub mod Error
pub mod Result
pub mod Account
pub mod Ledger
pub mod Outbox
