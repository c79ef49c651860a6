-- ===== src/Domain/Ledger.antt =====
-- internal/domain/ledger/entry.go: a transaction in the ledger.
use innoscripta_banking_ledg.Base.{ℕ, ℤ, String, Option}
use innoscripta_banking_ledg.Domain.Shared.{TransactionType, TransactionStatus}

pub record Entry : Type 0 where
  pub transaction_id : ℕ
  pub account_id : ℕ
  pub type : TransactionType
  pub amount : ℤ
  pub currency : String
  pub idempotency_key : String
  pub correlation_id : String
  pub status : TransactionStatus
  pub failure_reason : String
  pub created_at : ℕ
  pub processed_at : Option ℕ
