-- ===== src/Tests/Bank.antt =====
-- A run of the two programs.
use mathlib.Core.List.{Memᴰ}
use innoscripta_banking_ledg.Base.{inr, refl, List, [], ◌∷◌, arith}
use innoscripta_banking_ledg.Domain.Shared.{TransactionRequest}
use innoscripta_banking_ledg.Domain.Ledger.{Entry}
use innoscripta_banking_ledg.Gateway.Router.{Backends, serve}
use innoscripta_banking_ledg.Processor.Validator.{validate}
use innoscripta_banking_ledg.Processor.Service.{process_transaction}
use innoscripta_banking_ledg.Processor.Service.Validity.{IsValid}
use innoscripta_banking_ledg.Processor.System.Delivery.{ValidRequest}
use innoscripta_banking_ledg.Processor.Poller.{process_pending_messages}
use innoscripta_banking_ledg.Bank.{IsTopic, call, handle, tick, Run, start, next}
use innoscripta_banking_ledg.Bank.Soundness.{IsSound}
use innoscripta_banking_ledg.Bank.Balances.{Explained, Run-Explained}
use innoscripta_banking_ledg.Tests.InMemory.{
  Store, Documents, store_postgres, store_postgres-IsPostgres, store_collection,
  store_collection-IsCollection, store_json, store_json-IsJson, store_querier-IsQuerier,
}
use innoscripta_banking_ledg.Tests.Samples.{alice, withdrawal_of_30, world, poller}
use innoscripta_banking_ledg.Tests.Gateway.{
  plain_formats, plain_formats-IsFormats, sample_binding, sample_binding-IsBinding, list_topic,
  fresh, post_withdrawal,
}

unfoldable list_topic-IsTopic : IsTopic list_topic
list_topic-IsTopic = record { requests = λ t. t; publish_sends = λ key r t. inr refl }

abbrev Bank : Type 0
Bank = Backends Store Documents (List TransactionRequest)

-- The withdrawal is in the topic.
abbrev waiting : Bank
waiting = record { world = world; topic = withdrawal_of_30 ∷ [] }

abbrev after_handling : Bank
after_handling = record {
  world =
      (process_transaction store_postgres store_collection store_json withdrawal_of_30 12 world).1;
  topic = withdrawal_of_30 ∷ [];
}

abbrev after_polling : Bank
after_polling = record {
  world =
      (process_pending_messages poller store_postgres.pool store_collection store_json 13
        after_handling.world).1;
  topic = withdrawal_of_30 ∷ [];
}

abbrev after_call : Bank
after_call =
    (serve plain_formats sample_binding store_postgres.pool store_collection list_topic 2 fresh
      post_withdrawal after_polling).1

-- The request is handled, the outbox is polled, and the gateway is called.
abbrev three_steps :
    Run plain_formats sample_binding store_postgres store_collection store_json poller list_topic
      (λ t. t)
      waiting
      after_call
three_steps =
    next
      (next (next (start waiting) (handle withdrawal_of_30 12 waiting (Memᴰ.head refl)))
        (tick 13 after_handling))
      (call 2 fresh post_withdrawal after_polling)

alice-IsValid : IsValid {B = Entry} (alice ∷ []) []
alice-IsValid = record { accounts = refl; range = (omega arith, tt); outbox = refl }

withdrawal_of_30-ValidRequest : ValidRequest withdrawal_of_30
unfolding validate
withdrawal_of_30-ValidRequest = (omega arith, refl)

waiting-IsSound :
    IsSound plain_formats plain_formats-IsFormats sample_binding sample_binding-IsBinding
      store_postgres store_postgres-IsPostgres store_collection store_collection-IsCollection
      store_json poller list_topic list_topic-IsTopic waiting
unfolding list_topic-IsTopic store_postgres-IsPostgres store_querier-IsQuerier
waiting-IsSound = record {
  tables = alice-IsValid;
  delivered = tt;
  requests = (withdrawal_of_30-ValidRequest, tt);
}

Run-Explained_example :
    Explained plain_formats plain_formats-IsFormats sample_binding sample_binding-IsBinding
      store_postgres store_postgres-IsPostgres store_collection store_collection-IsCollection
      store_json store_json-IsJson poller list_topic list_topic-IsTopic waiting after_call
unfolding list_topic-IsTopic
Run-Explained_example =
    Run-Explained plain_formats plain_formats-IsFormats sample_binding sample_binding-IsBinding
      store_postgres store_postgres-IsPostgres store_collection store_collection-IsCollection
      store_json store_json-IsJson poller list_topic list_topic-IsTopic three_steps waiting-IsSound
