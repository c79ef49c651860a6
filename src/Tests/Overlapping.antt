-- ===== src/Tests/Overlapping.antt =====
-- Workers that overlap, over the databases in memory.
use innoscripta_banking_ledg.Base.{refl, false, [], ◌∷◌, arith}
use innoscripta_banking_ledg.Domain.Shared.{processed}
use innoscripta_banking_ledg.Domain.Ledger.{Entry}
use innoscripta_banking_ledg.Domain.Result.{ok}
use innoscripta_banking_ledg.Platform.World.{World}
use innoscripta_banking_ledg.Data.OutboxRepository.{update_status}
use innoscripta_banking_ledg.Processor.Validator.{validate}
use innoscripta_banking_ledg.Processor.Service.{after_check, process_transaction}
use innoscripta_banking_ledg.Processor.Service.Validity.{IsValid}
use innoscripta_banking_ledg.Processor.Service.Overlap.{
  Moves, still, more, transact, mark, Kept, Moves-Kept,
}
use innoscripta_banking_ledg.Processor.Poller.{process_pending_messages}
use innoscripta_banking_ledg.Tests.InMemory.{
  Store, Documents, store_postgres, store_postgres-IsPostgres, store_querier-IsQuerier,
  store_collection, store_json, store_json-IsJson,
}
use innoscripta_banking_ledg.Tests.Samples.{alice, withdrawal_of_30, world, poller}

-- Two workers have found the same withdrawal new, and the poller marks the message of the first one
-- before the second one has its turn.
abbrev first_done : World Store Documents
first_done =
    (after_check store_postgres store_collection store_json withdrawal_of_30 12 (ok false) world.pg
      world.mongo).1

abbrev marked : World Store Documents
marked = record first_done {
  pg = (update_status store_postgres.pool 1 processed 13 first_done.pg).1;
}

abbrev second_done : World Store Documents
second_done =
    (after_check store_postgres store_collection store_json withdrawal_of_30 14 (ok false) marked.pg
      marked.mongo).1

two_workers : Moves store_postgres store_collection store_json world second_done
unfolding validate
two_workers =
    more
      (more (more (still world) (transact withdrawal_of_30 12 (ok false) world (omega arith) refl))
        (mark 1 processed 13 first_done))
      (transact withdrawal_of_30 14 (ok false) marked (omega arith) refl)

fresh-IsValid : IsValid {B = Entry} (alice ∷ []) []
fresh-IsValid = record { accounts = refl; range = (omega arith, tt); outbox = refl }

Moves-Kept_example :
    Kept store_postgres store_postgres-IsPostgres store_collection store_json store_json-IsJson
      world second_done
unfolding store_postgres-IsPostgres store_querier-IsQuerier
Moves-Kept_example =
    Moves-Kept store_postgres store_postgres-IsPostgres store_collection store_json
      store_json-IsJson two_workers fresh-IsValid

abbrev handled : World Store Documents
handled =
    (process_transaction store_postgres store_collection store_json withdrawal_of_30 12 world).1

abbrev polled : World Store Documents
polled =
    (process_pending_messages poller store_postgres.pool store_collection store_json 13 handled).1
