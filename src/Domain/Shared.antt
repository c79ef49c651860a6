-- ===== src/Domain/Shared.antt =====
-- internal/domain/shared: the words of a transaction and the request that travels over Kafka.
-- A `uuid.UUID` is a number below 2^128 that is only compared, `uuid.Nil` being 0; a `time.Time` is
-- a number; a Go `string` is a text.
use innoscripta_banking_ledg.Base.{ℕ, ℤ, String}

-- A Go string type: Kafka may bring any other text.
pub data TransactionType : Type 0 where
  deposit withdrawal : TransactionType
  unknown : String → TransactionType

pub data TransactionStatus : Type 0 where
  pending processing completed failed : TransactionStatus

pub data OutboxStatus : Type 0 where
  pending processed failed_to_publish : OutboxStatus

pub record TransactionRequest : Type 0 where
  pub transaction_id : ℕ
  pub account_id : ℕ
  pub type : TransactionType
  pub amount : ℤ
  pub currency : String
  pub idempotency_key : String
  pub correlation_id : String
  pub timestamp : ℕ

-- The `FailureReason` constants that the processor writes.
abbrev pub account_not_found_reason : String
account_not_found_reason = "ACCOUNT_NOT_FOUND"

abbrev pub insufficient_funds_reason : String
insufficient_funds_reason = "INSUFFICIENT_FUNDS"

abbrev pub invalid_amount_reason : String
invalid_amount_reason = "INVALID_AMOUNT"

abbrev pub unknown_error_reason : String
unknown_error_reason = "UNKNOWN_ERROR"
