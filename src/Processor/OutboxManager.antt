-- ===== src/Processor/OutboxManager.antt =====
-- internal/transaction_processor/components/outbox_manager.go.
pub mod Queueing
use innoscripta_banking_ledg.Base.{ℕ, none}
use innoscripta_banking_ledg.Domain.Shared.{TransactionRequest, processing}
use innoscripta_banking_ledg.Domain.Error.{wrapped}
use innoscripta_banking_ledg.Domain.Result.{Result, ok, err, Exec}
use innoscripta_banking_ledg.Domain.Ledger.{Entry}
use innoscripta_banking_ledg.Domain.Outbox.{Message, Json, new_message}
use innoscripta_banking_ledg.Platform.Querier.{Querier}
use innoscripta_banking_ledg.Data.OutboxRepository.{create}

abbrev pub ledger_entry_for_outbox : TransactionRequest → Entry
ledger_entry_for_outbox request = record {
  transaction_id = request.transaction_id;
  account_id = request.account_id;
  type = request.type;
  amount = request.amount;
  currency = request.currency;
  idempotency_key = request.idempotency_key;
  correlation_id = request.correlation_id;
  status = processing;
  failure_reason = "";
  created_at = request.timestamp;
  processed_at = none;
}

module _ {B X : Type 0} (q : Querier B X) where
  outbox_created : Result (Message B) → Result (Unit {0})
  outbox_created (ok _) = ok tt
  outbox_created (err e) = err (wrapped e)

  store_message : Result (Message B) → Exec X (Unit {0})
  unfolding outbox_created
  store_message (err e) x = (err (wrapped e), x)
  store_message (ok message) x = let (r, x') = create q message x in (outbox_created r, x')

  unfoldable pub create_outbox_entry : Json B → TransactionRequest → ℕ → Exec X (Unit {0})
  unfolding store_message
  create_outbox_entry json request now x =
      store_message (new_message json (ledger_entry_for_outbox request) now) x
