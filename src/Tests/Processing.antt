-- ===== src/Tests/Processing.antt =====
-- Requests processed over the databases in memory.
use innoscripta_banking_ledg.Base.{pos, wrap64, ◌-ℤ◌, ◌+ℤ◌, refl, [], ◌∷◌, ◌≡◌, ◌⊎◌, arith}
use innoscripta_banking_ledg.Domain.Account.Total.{total}
use innoscripta_banking_ledg.Domain.Ledger.{Entry}
use innoscripta_banking_ledg.Domain.Account as AccountModel
use innoscripta_banking_ledg.Domain.Error.{errors_is}
use innoscripta_banking_ledg.Domain.Outbox.{new_message}
use innoscripta_banking_ledg.Data.LedgerRepository as LedgerRepository
use innoscripta_banking_ledg.Data.AccountRepository as AccountRepository
use innoscripta_banking_ledg.Data.OutboxRepository as OutboxRepository
use innoscripta_banking_ledg.Processor.AccountManager.{lock_and_update_account, change_account}
use innoscripta_banking_ledg.Processor.OutboxManager.{create_outbox_entry}
use innoscripta_banking_ledg.Platform.World.{World}
use innoscripta_banking_ledg.Platform.Postgres.{SameTables}
use innoscripta_banking_ledg.Processor.AccountManager.Change.{moved}
use innoscripta_banking_ledg.Processor.Validator.{validate, check_idempotency}
use innoscripta_banking_ledg.Processor.Publisher.Completion.{KeepsCompleted}
use innoscripta_banking_ledg.Processor.Poller.{process_pending_messages}
use innoscripta_banking_ledg.Processor.Service.{process_transaction}
use innoscripta_banking_ledg.Processor.Service.Atomicity.{AllOrNothing, process_transaction_atomic}
use innoscripta_banking_ledg.Processor.Service.Completed.{process_transaction-KeepsCompleted}
use innoscripta_banking_ledg.Processor.Service.Money.{process_transaction-total}
use innoscripta_banking_ledg.Processor.Service.Once.{process_transaction_once}
use innoscripta_banking_ledg.Processor.Service.Validity.{IsValid}
use innoscripta_banking_ledg.Processor.System.{handle, tick, start, next}
use innoscripta_banking_ledg.Processor.System.Reconciliation.{Explains, Run-Explains}
use innoscripta_banking_ledg.Tests.InMemory.{
  Store, Documents, store_querier, store_postgres, store_postgres-IsPostgres,
  store_querier-IsQuerier, store_collection, store_collection-IsCollection, store_json,
  store_json-IsJson,
}
use innoscripta_banking_ledg.Tests.Samples.{
  alice, withdrawal_of_30, queued_message, queued_store, world, queued_world, poller,
}

abbrev processed_world : World Store Documents
processed_world =
    (process_transaction store_postgres store_collection store_json withdrawal_of_30 12 world).1

abbrev published_world : World Store Documents
published_world =
    (process_pending_messages poller store_querier store_collection store_json 13 processed_world).1

-- The withdrawal goes through.
withdrawal_applied :
    (processed_world.pg.rows
      ≡ record alice { balance = pos 70; version = pos 2; updated_at = 12 } ∷ [])
    × (processed_world.pg.queue ≡ queued_message ∷ [])
unfolding process_transaction check_idempotency LedgerRepository.get_by_transaction_id errors_is
    lock_and_update_account AccountRepository.lock_for_update change_account AccountModel.withdraw
    AccountRepository.update wrap64 ◌-ℤ◌ ◌+ℤ◌ create_outbox_entry new_message
    OutboxRepository.create
withdrawal_applied = (refl, refl)

fresh-IsValid : IsValid {B = Entry} (alice ∷ []) []
fresh-IsValid = record { accounts = refl; range = omega arith; outbox = refl }

process_transaction_atomic_example :
    AllOrNothing store_json withdrawal_of_30 12 store_postgres-IsPostgres
      (alice ∷ [])
      []
      (process_transaction store_postgres store_collection store_json withdrawal_of_30 12
        world).1.pg
unfolding store_postgres-IsPostgres
process_transaction_atomic_example =
    process_transaction_atomic store_postgres store_postgres-IsPostgres store_collection store_json
      withdrawal_of_30 12 world (omega arith) refl (omega arith)

process_transaction_once_example :
    SameTables store_querier-IsQuerier store_querier-IsQuerier queued_store
      (process_transaction store_postgres store_collection store_json withdrawal_of_30 14
        queued_world).1.pg
unfolding store_postgres-IsPostgres
process_transaction_once_example =
    process_transaction_once store_postgres store_postgres-IsPostgres store_collection store_json
      withdrawal_of_30 14 queued_world queued_message (omega arith) refl (omega arith) refl

process_transaction-total_example :
    let after =
      total
        (process_transaction store_postgres store_collection store_json withdrawal_of_30 12
          world).1.pg.rows in
    (after ≡ total (alice ∷ []))
    ⊎ (after ≡ moved withdrawal_of_30.type (pos 30) (total (alice ∷ [])))
unfolding store_postgres-IsPostgres
process_transaction-total_example =
    process_transaction-total store_postgres store_postgres-IsPostgres store_collection store_json
      withdrawal_of_30 12 world (omega arith) refl (omega arith)

process_transaction-KeepsCompleted_example : KeepsCompleted [] processed_world.mongo.docs
unfolding store_collection-IsCollection validate
process_transaction-KeepsCompleted_example =
    process_transaction-KeepsCompleted store_postgres store_collection store_collection-IsCollection
      store_json withdrawal_of_30 12 world refl

Run-Explains_example :
    Explains store_postgres store_postgres-IsPostgres store_collection store_collection-IsCollection
      store_json store_json-IsJson poller world published_world
unfolding store_postgres-IsPostgres
Run-Explains_example =
    Run-Explains store_postgres store_postgres-IsPostgres store_collection
      store_collection-IsCollection store_json store_json-IsJson poller
      (next (next (start world) (handle withdrawal_of_30 12 world (omega arith)))
        (tick 13 processed_world))
      fresh-IsValid
