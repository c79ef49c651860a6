-- ===== src/Processor/Validator.antt =====
-- internal/transaction_processor/components/transaction_validator.go.
use innoscripta_banking_ledg.Base.{pos, leb_ℤ, Bool, true, false, if◌then◌else◌}
use innoscripta_banking_ledg.Domain.Shared.{
  TransactionRequest, TransactionType, deposit, withdrawal, unknown, TransactionStatus, completed,
  failed,
}
use innoscripta_banking_ledg.Domain.Error.{
  wrapped, invalid_transaction_type, amount_not_positive, entry_not_found, errors_is,
}
use innoscripta_banking_ledg.Domain.Result.{Result, ok, err, Exec}
use innoscripta_banking_ledg.Domain.Ledger.{Entry}
use innoscripta_banking_ledg.Platform.Collection.{Collection}
use innoscripta_banking_ledg.Data.LedgerRepository.{get_by_transaction_id}

abbrev pub is_known : TransactionType → Bool
is_known deposit = true
is_known withdrawal = true
is_known (unknown _) = false

unfoldable pub validate : TransactionRequest → Result (Unit {0})
validate request =
    if is_known request.type
    then (if leb_ℤ request.amount (pos 0) then err (amount_not_positive request.amount) else ok tt)
    else err invalid_transaction_type

-- A status that the processor does not work on again.
abbrev pub is_terminal : TransactionStatus → Bool
is_terminal completed = true
is_terminal failed = true
is_terminal _ = false

unfoldable pub skip_or_not : Result Entry → Result Bool
skip_or_not (ok existing) = ok (is_terminal existing.status)
skip_or_not (err e) = if errors_is e (entry_not_found 0) then ok false else err (wrapped e)

module _ {M : Type 0} (c : Collection M) where
  -- `true` says that the request has been dealt with.
  unfoldable pub check_idempotency : TransactionRequest → Exec M Bool
  unfolding skip_or_not
  check_idempotency request m =
      let (existing, m') = get_by_transaction_id c request.transaction_id m in
      (skip_or_not existing, m')
