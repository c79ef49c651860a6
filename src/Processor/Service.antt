-- ===== src/Processor/Service.antt =====
-- internal/transaction_processor/service/processing_service.go: the whole handling of one request.
-- The steps after a point of the method are a function of what is known there; the deferred function
-- rolls back where the method ends with `err` set. The method does not panic: the `recover` is left
-- out.
pub mod Atomicity
pub mod Once
pub mod Money
pub mod Validity
pub mod Verdict
pub mod Acknowledged
pub mod Reconciled
pub mod Completed
pub mod Success
pub mod Overlap
use Prim.Native.String.{◌++◌ as append}
use innoscripta_banking_ledg.Base.{ℕ, String, Bool, true, false, Option, none, some, if◌then◌else◌}
use innoscripta_banking_ledg.Domain.Shared.{
  TransactionRequest, account_not_found_reason, insufficient_funds_reason, invalid_amount_reason,
  unknown_error_reason,
}
use innoscripta_banking_ledg.Domain.Error.{
  Error, external, wrapped, invalid_transaction_type, invalid_currency, invalid_amount,
  insufficient_funds, account_not_found, errors_is,
}
use innoscripta_banking_ledg.Domain.Result.{Result, ok, err, Exec}
use innoscripta_banking_ledg.Domain.Account.{Account}
use innoscripta_banking_ledg.Domain.Outbox.{Json}
use innoscripta_banking_ledg.Platform.Reply.{Reply, done, fault}
use innoscripta_banking_ledg.Platform.Postgres.{Postgres}
use innoscripta_banking_ledg.Platform.Collection.{Collection}
use innoscripta_banking_ledg.Platform.World.{World}
use innoscripta_banking_ledg.Processor.Validator.{validate, check_idempotency}
use innoscripta_banking_ledg.Processor.AccountManager.{lock_and_update_account}
use innoscripta_banking_ledg.Processor.OutboxManager.{create_outbox_entry}
use innoscripta_banking_ledg.Processor.FailureRecorder.{record_failure}

unfoldable pub validation_reason : Error → String
validation_reason e =
    if errors_is e invalid_transaction_type then unknown_error_reason else invalid_amount_reason

-- `fmt.Sprintf(FailureReasonCurrencyMismatchFormat, request.Currency, "account_currency")`: the text
-- "account_currency" stands where the format has the currency of the account.
unfoldable pub currency_mismatch_reason : TransactionRequest → String
currency_mismatch_reason request =
    append "CURRENCY_MISMATCH:_REQUEST_" (append request.currency "_ACCOUNT_account_currency")

-- The reason under which an error of the account is recorded; none where Kafka is to retry.
unfoldable pub business_reason : TransactionRequest → Error → Option String
business_reason request e =
    if errors_is e (account_not_found request.account_id)
    then some account_not_found_reason
    else if errors_is e invalid_currency
    then some (currency_mismatch_reason request)
    else if errors_is e invalid_amount
    then some invalid_amount_reason
    else if errors_is e insufficient_funds
    then some insufficient_funds_reason
    else none

module _ {B P X M : Type 0} (pg : Postgres B P X) (c : Collection M) (json : Json B) where
  -- `return nil` after a recorded failure, whether or not the recording came through.
  settle : TransactionRequest → ℕ → Error → Option String → M → Result (Unit {0}) × M
  settle request now e none m = (err e, m)
  settle request now e (some reason) m =
      let (_, m') = record_failure c request reason now m in (ok tt, m')

  -- 6. Commit transaction
  finish : Reply (Unit {0}) → X → P → M → Result (Unit {0}) × World P M
  finish (done _) x p m = (ok tt, record { pg = p; mongo = m })
  finish fault x p m =
      let (_, p') = pg.rollback x p in (err (wrapped external), record { pg = p'; mongo = m })

  after_outbox : Result (Unit {0}) → X → P → M → Result (Unit {0}) × World P M
  unfolding finish
  after_outbox (err e) x p m =
      let (_, p') = pg.rollback x p in (err e, record { pg = p'; mongo = m })
  after_outbox (ok _) x p m = let (r, p') = pg.commit x p in finish r x p' m

  -- 5. Create outbox entry
  after_update : TransactionRequest → ℕ → Result Account → X → P → M → Result (Unit {0}) × World P M
  unfolding settle after_outbox
  after_update request now (err e) x p m =
      let (r, m') = settle request now e (business_reason request e) m in
      let (_, p') = pg.rollback x p in (r, record { pg = p'; mongo = m' })
  after_update request now (ok _) x p m =
      let (r, x') = create_outbox_entry pg.tx json request now x in after_outbox r x' p m

  -- 4. Lock and update account
  after_begin : TransactionRequest → ℕ → Reply X → P → M → Result (Unit {0}) × World P M
  unfolding after_update
  after_begin request now fault p m = (err (wrapped external), record { pg = p; mongo = m })
  after_begin request now (done x) p m =
      let (r, x') = lock_and_update_account pg.tx request now x in after_update request now r x' p m

  -- 3. Begin database transaction
  pub after_check : TransactionRequest → ℕ → Result Bool → P → M → Result (Unit {0}) × World P M
  unfolding after_begin
  after_check request now (err e) p m = (err e, record { pg = p; mongo = m })
  after_check request now (ok true) p m = (ok tt, record { pg = p; mongo = m })
  after_check request now (ok false) p m =
      let (r, p') = pg.begin p in after_begin request now r p' m

  -- 2. Check idempotency
  after_validation :
      TransactionRequest → ℕ → Result (Unit {0}) → World P M → Result (Unit {0}) × World P M
  unfolding after_check
  after_validation request now (err e) w =
      let (_, m') = record_failure c request (validation_reason e) now w.mongo in
      (ok tt, record w { mongo = m' })
  after_validation request now (ok _) w =
      let (skip, m') = check_idempotency c request w.mongo in after_check request now skip w.pg m'

  -- 1. Validate the transaction
  unfoldable pub process_transaction : TransactionRequest → ℕ → Exec (World P M) (Unit {0})
  unfolding after_validation validate
  process_transaction request now w = after_validation request now (validate request) w
