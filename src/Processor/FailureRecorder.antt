-- ===== src/Processor/FailureRecorder.antt =====
-- internal/transaction_processor/components/failure_recorder.go.
pub mod Recording
use innoscripta_banking_ledg.Base.{ℕ, String, Bool, true, false, some, if◌then◌else◌}
use innoscripta_banking_ledg.Domain.Shared.{TransactionRequest, TransactionStatus, failed}
use innoscripta_banking_ledg.Domain.Result.{Result, ok, err, Exec}
use innoscripta_banking_ledg.Domain.Ledger.{Entry}
use innoscripta_banking_ledg.Platform.Collection.{Collection}
use innoscripta_banking_ledg.Data.LedgerRepository.{get_by_transaction_id, update_status, create}

abbrev pub is_failed : TransactionStatus → Bool
is_failed failed = true
is_failed _ = false

abbrev pub failed_entry : TransactionRequest → String → ℕ → Entry
failed_entry request reason now = record {
  transaction_id = request.transaction_id;
  account_id = request.account_id;
  type = request.type;
  amount = request.amount;
  currency = request.currency;
  idempotency_key = request.idempotency_key;
  correlation_id = request.correlation_id;
  status = failed;
  failure_reason = reason;
  created_at = request.timestamp;
  processed_at = some now;
}

module _ {M : Type 0} (c : Collection M) where
  -- An error of the look-up is only logged, and the entry created.
  record_over : TransactionRequest → String → ℕ → Result Entry → Exec M (Unit {0})
  record_over request reason now (ok existing) m =
      if is_failed existing.status
      then (ok tt, m)
      else update_status c request.transaction_id failed reason now m
  record_over request reason now (err _) m = create c (failed_entry request reason now) m

  unfoldable pub record_failure : TransactionRequest → String → ℕ → Exec M (Unit {0})
  unfolding record_over
  record_failure request reason now m =
      let (existing, m') = get_by_transaction_id c request.transaction_id m in
      record_over request reason now existing m'
