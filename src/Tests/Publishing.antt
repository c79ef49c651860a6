-- ===== src/Tests/Publishing.antt =====
-- The outbox polled and published over the databases in memory.
use innoscripta_banking_ledg.Base.{arith, ◌∷◌, All, refl, []}
use innoscripta_banking_ledg.Domain.Shared.{failed}
use innoscripta_banking_ledg.Data.OutboxRepository.{get_pending}
use innoscripta_banking_ledg.Data.LedgerRepository.Entries.{Sets}
use innoscripta_banking_ledg.Processor.FailureRecorder.{record_failure}
use innoscripta_banking_ledg.Processor.FailureRecorder.Recording.{record_failure-Sets}
use innoscripta_banking_ledg.Processor.Publisher.{publish_to_ledger}
use innoscripta_banking_ledg.Processor.Publisher.Delivery.{Delivers, publish_to_ledger-Delivers}
use innoscripta_banking_ledg.Processor.Poller.{process_pending_messages}
use innoscripta_banking_ledg.Processor.Poller.Delivered.{Polled, AllDelivered}
use innoscripta_banking_ledg.Processor.Poller.Progress.{
  IsPublished, process_pending_messages_publishes,
}
use innoscripta_banking_ledg.Processor.Poller.Polling.{process_pending_messages-Delivered}
use innoscripta_banking_ledg.Tests.InMemory.{
  store_querier, store_querier-IsQuerier, store_collection, store_collection-IsCollection,
  store_json,
}
use innoscripta_banking_ledg.Tests.Steady.{
  steady_querier, steady_querier-IsQuerier, steady_querier-UpdatesAnswer, steady_collection,
  steady_collection-IsCollection, steady_collection-Answers,
}
use innoscripta_banking_ledg.Tests.Samples.{
  withdrawal_of_30, queued_message, queued_entry, queued_world, empty_documents, poller,
}

publish_to_ledger-Delivers_example :
    let (r, w) =
      publish_to_ledger store_querier store_collection store_json queued_message 13 queued_world in
    Delivers store_querier store_querier-IsQuerier store_collection store_collection-IsCollection
      store_json queued_message 13 queued_entry queued_world r w
publish_to_ledger-Delivers_example =
    publish_to_ledger-Delivers store_querier store_querier-IsQuerier store_collection
      store_collection-IsCollection store_json queued_message 13 queued_entry queued_world refl

process_pending_messages-Delivered_example :
    let w =
      (process_pending_messages poller store_querier store_collection store_json 13
        queued_world).1 in
    Polled store_querier-IsQuerier store_collection-IsCollection queued_world w
    × AllDelivered store_querier-IsQuerier store_collection-IsCollection store_json w
unfolding store_querier-IsQuerier
process_pending_messages-Delivered_example =
    process_pending_messages-Delivered poller store_querier store_querier-IsQuerier store_collection
      store_collection-IsCollection store_json 13 queued_world refl (λ e. absurd (ground arith), tt)

record_failure-Sets_example :
    let (r, d) =
      record_failure store_collection withdrawal_of_30 "INSUFFICIENT_FUNDS" 13 empty_documents in
    Sets failed 55 [] d.docs r
unfolding store_collection-IsCollection
record_failure-Sets_example =
    record_failure-Sets store_collection store_collection-IsCollection withdrawal_of_30
      "INSUFFICIENT_FUNDS" 13 empty_documents

first_tick :
    All
      (IsPublished store_json
        (process_pending_messages poller steady_querier steady_collection store_json 13
          queued_world).1.mongo.docs)
      (queued_message ∷ [])
unfolding steady_querier-IsQuerier steady_collection-IsCollection get_pending
first_tick =
    process_pending_messages_publishes poller steady_querier steady_querier-IsQuerier
      steady_collection steady_collection-IsCollection store_json steady_collection-Answers
      steady_querier-UpdatesAnswer 13 queued_world (queued_message ∷ []) refl refl
