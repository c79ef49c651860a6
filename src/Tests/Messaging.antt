-- ===== src/Tests/Messaging.antt =====
-- The consumer and `ExecuteTx`.
use innoscripta_banking_ledg.Base.{some, ℕ, refl, List, [], ◌∷◌, ◌++◌, ◌≡◌, ◌==◌, if◌then◌else◌}
use innoscripta_banking_ledg.Domain.Shared.{processed}
use innoscripta_banking_ledg.Domain.Error.{external}
use innoscripta_banking_ledg.Domain.Result.{ok, err, Exec}
use innoscripta_banking_ledg.Platform.Reply.{done}
use innoscripta_banking_ledg.Platform.Transaction.{Executed, execute_tx, execute_tx-Executed}
use innoscripta_banking_ledg.Data.OutboxRepository.{update_status}
use innoscripta_banking_ledg.Processor.Consumer.{
  KafkaMessage, Reader, Session, subscribe, Round, cancelled, fetched, fetch_failed, fetch_loop,
}
use innoscripta_banking_ledg.Processor.Consumer.Commits.{accepted_offsets, commit_all, handle_all}
use innoscripta_banking_ledg.Processor.Consumer.Fetching.{messages_of, fetch_loop_commits}
use innoscripta_banking_ledg.Processor.EventHandler as EventHandler
use innoscripta_banking_ledg.Processor.EventHandler.Consumption.{
  event_handler, IsRead, fetch_loop-Run,
}
use innoscripta_banking_ledg.Processor.System.{Run}
use innoscripta_banking_ledg.Tests.Services.{decode_number, list_dead_letters, channels}
use innoscripta_banking_ledg.Tests.InMemory.{
  store_collection, store_json, Documents, Store, store_querier, store_postgres,
  store_postgres-IsPostgres,
}
use innoscripta_banking_ledg.Tests.Samples.{queued_store, world, poller}

abbrev mark_first : Exec Store (Unit {0})
mark_first = update_status store_querier 1 processed 14

execute_tx-Executed_example :
    Executed store_postgres store_postgres-IsPostgres mark_first queued_store
      (execute_tx store_postgres mark_first queued_store)
execute_tx-Executed_example =
    execute_tx-Executed store_postgres store_postgres-IsPostgres mark_first queued_store

-- The handler refuses the value 0 and counts the others; the reader lists the commits.
abbrev counting_handler : ℕ → ℕ → Exec (List ℕ) (Unit {0})
counting_handler key value seen =
    if value == 0 then (err external, seen) else (ok tt, seen ++ value ∷ [])

abbrev listing_reader : Reader (List ℕ)
listing_reader = record { commit_messages = λ offset commits. (done tt, commits ++ offset ∷ []) }

abbrev two_messages : List (KafkaMessage ℕ)
two_messages =
    record { offset = 7; key = 1; value = 0 } ∷ record { offset = 8; key = 1; value = 5 } ∷ []

abbrev fresh_session : Session (List ℕ) (List ℕ)
fresh_session = record { handled = []; reader = [] }

-- A fetch fails in between, and nothing is fetched after the end.
abbrev four_rounds : List (Round ℕ)
four_rounds =
    fetched (record { offset = 7; key = 1; value = 0 })
    ∷ fetch_failed
    ∷ fetched (record { offset = 8; key = 1; value = 5 })
    ∷ cancelled
    ∷ []

fetch_loop_commits_example :
    let (_, w) = fetch_loop listing_reader counting_handler four_rounds fresh_session in
    (w.handled ≡ handle_all listing_reader counting_handler two_messages [])
    × (w.reader
        ≡ commit_all listing_reader counting_handler
            (accepted_offsets listing_reader counting_handler two_messages [])
            [])
fetch_loop_commits_example =
    fetch_loop_commits listing_reader counting_handler four_rounds fresh_session

-- The offset of the message that was refused has not been committed, but the next one has.
refused_message_passed :
    (subscribe listing_reader counting_handler two_messages fresh_session).reader ≡ 8 ∷ []
unfolding subscribe
refused_message_passed = refl

-- The number 55 is the withdrawal; a message with another value goes to the dead letters.
abbrev two_rounds : List (Round ℕ)
two_rounds =
    fetched (record { offset = 1; key = 7; value = 55 })
    ∷ fetched (record { offset = 2; key = 7; value = 0 })
    ∷ []

abbrev first_session : Session (EventHandler.Channels Store Documents (List ℕ)) (List ℕ)
first_session = record { handled = channels; reader = [] }

fetch_loop-Run_example :
    Run store_postgres store_collection store_json poller
      (IsRead store_postgres store_collection store_json poller decode_number
        (some list_dead_letters)
        listing_reader
        (λ w. 12)
        (messages_of two_rounds))
      world
      (fetch_loop listing_reader
        (event_handler store_postgres store_collection store_json poller decode_number
          (some list_dead_letters)
          listing_reader
          (λ w. 12))
        two_rounds
        first_session).1.handled.world
fetch_loop-Run_example =
    fetch_loop-Run store_postgres store_collection store_json poller decode_number
      (some list_dead_letters) listing_reader (λ w. 12) two_rounds first_session
