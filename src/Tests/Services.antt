-- ===== src/Tests/Services.antt =====
-- The gateway, the event handler and the configuration.
use innoscripta_banking_ledg.Base.{
  if◌then◌else◌, ◌==◌, ℕ, pos, refl, Option, some, none, List, [], ◌∷◌, ◌≡◌, ◌↔◌, ◌++◌, arith,
}
use innoscripta_banking_ledg.Domain.Shared.{TransactionRequest}
use innoscripta_banking_ledg.Platform.Reply.{done}
use innoscripta_banking_ledg.Gateway.TransactionService as TransactionService
use innoscripta_banking_ledg.Gateway.TransactionService.{
  MessagePublisher, create_transaction, get_transaction_by_id, page_offset,
}
use innoscripta_banking_ledg.Gateway.TransactionService.Acceptance.{
  Answers, create_transaction-Answers,
}
use innoscripta_banking_ledg.Processor.EventHandler as EventHandler
use innoscripta_banking_ledg.Processor.EventHandler.{DeadLetterPublisher, handle_message}
use innoscripta_banking_ledg.Processor.EventHandler.Handling.{Handled, handle_message-Handled}
use innoscripta_banking_ledg.Config.Server.{IsServerConfig, IsOutboxConfig, IsWorkerPoolConfig}
use innoscripta_banking_ledg.Config.Kafka.{IsKafkaConfig}
use innoscripta_banking_ledg.Config.Stores.{IsPostgresConfig, IsMongoDbConfig}
use innoscripta_banking_ledg.Config.Validation.{Config, validate_config, validate_config_accepts}
use innoscripta_banking_ledg.Tests.InMemory.{
  Store, Documents, store_postgres, store_postgres-IsPostgres, store_collection,
  store_collection-IsCollection, store_json,
}
use innoscripta_banking_ledg.Tests.Samples.{withdrawal_of_30, world, full_documents}

-- A topic that takes every message.
abbrev list_publisher : MessagePublisher (List TransactionRequest)
list_publisher = record { publish = λ key request topic. (done tt, topic ++ request ∷ []) }

abbrev full_channels : TransactionService.Channels Documents (List TransactionRequest)
full_channels = record { mongo = full_documents; topic = [] }

create_transaction-Answers_example :
    let (r, w) =
      create_transaction store_collection list_publisher withdrawal_of_30 full_channels in
    Answers store_collection store_collection-IsCollection list_publisher withdrawal_of_30
      full_channels w r
    × (w.mongo.docs ≡ full_documents.docs)
unfolding store_collection-IsCollection
create_transaction-Answers_example =
    create_transaction-Answers store_collection store_collection-IsCollection list_publisher
      withdrawal_of_30 full_channels

-- Values are requests already; the number is one that cannot be read.
abbrev pub decode_number : ℕ → Option TransactionRequest
decode_number n = if n == 55 then some withdrawal_of_30 else none

abbrev pub list_dead_letters : DeadLetterPublisher ℕ (List ℕ)
list_dead_letters = record {
  publish_to_dlq = λ key value letters. (done tt, letters ++ value ∷ []);
}

abbrev pub channels : EventHandler.Channels Store Documents (List ℕ)
channels = record { world = world; dead_letters = [] }

handle_message-Handled_example :
    let (r, w) =
      handle_message store_postgres store_collection store_json decode_number
        (some list_dead_letters)
        1
        55
        12
        channels in
    Handled store_postgres store_postgres-IsPostgres store_collection store_collection-IsCollection
      store_json decode_number
      (some list_dead_letters)
      1
      55
      12
      channels
      r
      w
unfolding store_postgres-IsPostgres
handle_message-Handled_example =
    handle_message-Handled store_postgres store_postgres-IsPostgres store_collection
      store_collection-IsCollection store_json decode_number (some list_dead_letters) 1 55 12
      channels (λ r h. ground arith) refl (omega arith)

abbrev pub local_config : Config
local_config = record {
  application = record { env = "local"; name = "ledger" };
  logging = record { level = "info" };
  server = record {
    port = pos 8080;
    shutdown_timeout = pos 10;
    read_timeout = pos 5;
    write_timeout = pos 5;
    idle_timeout = pos 60;
  };
  kafka = record {
    brokers = "kafka:9092";
    transaction_topic = "requests";
    num_partitions = pos 1;
    replication_factor = pos 1;
    consumer_group = "processors";
    min_bytes = pos 1;
    max_bytes = pos 1000;
    max_wait = pos 1;
    start_offset = pos 0;
    dlq_topic = "dead";
  };
  postgres = record {
    url = "postgres://";
    max_conns = pos 10;
    min_conns = pos 1;
    conn_max_lifetime = pos 60;
    conn_max_idle_time = pos 30;
    migrations_path = "";
  };
  mongodb = record {
    uri = "mongodb://";
    database = "ledger";
    timeout = pos 5;
    max_pool_size = 10;
    min_pool_size = 1;
    max_conn_idle_time = pos 30;
  };
  outbox = record { polling_interval = pos 1; batch_size = pos 10; max_retry_attempts = pos 3 };
  worker_pool = record { size = pos 8 };
}

validate_config_accepts_example : (validate_config local_config ≡ none) ↔ (
    IsServerConfig local_config.server
    × IsKafkaConfig local_config.kafka
    × IsPostgresConfig local_config.postgres
    × IsMongoDbConfig local_config.mongodb
    × IsOutboxConfig local_config.outbox
    × IsWorkerPoolConfig local_config.worker_pool)
validate_config_accepts_example = validate_config_accepts local_config
