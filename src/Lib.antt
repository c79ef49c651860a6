-- ===== src/Lib.antt =====
-- A banking ledger: its gateway and its transaction processor, and what makes them correct.
--
-- The program. The gateway (internal/api_gateway) opens accounts and publishes requests to deposit or
-- withdraw to Kafka, unless the ledger has their idempotency key. The transaction processor
-- (internal/transaction_processor) validates a request, looks into the ledger whether it has been
-- dealt with, and then, in one PostgreSQL transaction, locks the account, changes its balance and
-- puts a message into an outbox table. A poller reads the outbox, writes the transaction into the
-- ledger, a MongoDB collection, as COMPLETED, and marks the message as PROCESSED. A request that
-- cannot succeed is recorded in the ledger as FAILED.
--
-- The files.
--   Base: numbers, 64-bit integers, lists, searches by key.
--   Domain: internal/domain. Shared has the words and the request, Account the account with its
--     methods, Ledger the entry, Outbox the message, Error the errors with `errors.Is`, Result Go's
--     pair of a value and an error. Children hold what is proved of each.
--   Platform: internal/platform/persistence and what lies below it. Querier, Postgres and
--     Collection are records of the calls that the program makes of pgx and of the MongoDB
--     driver, with records of the effects that their documentation promises; Schema has the
--     constraints of migrations/postgres; World is the state behind both databases; Transaction
--     is ExecuteTx; Connections has the migrations and the connections to both databases.
--   Data: internal/data. AccountRepository, OutboxRepository and LedgerRepository, one function for
--     each method.
--   Processor: internal/transaction_processor. Validator, AccountManager, OutboxManager and
--     FailureRecorder are the files of components; Service is ProcessTransaction of
--     service/processing_service.go; Publisher and Poller are the two files of outbox_poller;
--     Journal reads the outbox as a list of changes; EventHandler is
--     consumer/transaction_event_handler.go; Consumer is the loop of
--     internal/platform/messaging/consumers/consumer.go; WorkerPool is
--     service/worker_pool_service.go, its calls and tasks in any order, with
--     components/factory.go; System is cmd/transaction_processor as a step relation.
--   Gateway: internal/api_gateway. AccountService and TransactionService are the two services; Dto,
--     Http, AccountHandler and TransactionHandler are the four files of handler; Router is router.go
--     with the middleware for the correlation ID and for panics; Http.Answers is what a client is told,
--     written out.
--   Config: internal/config/config.go, the settings and their validation, and, in Load, load.go;
--     Load.Settings has the keys and the defaults, written out.
--   Messaging: internal/platform/messaging/producers. Topics creates a missing topic, Requests is the
--     producer of the gateway, DeadLetters that of the dead letter queue.
--   Programs: how the two programs of cmd start and stop.
--   Bank: the two programs of cmd over the same databases and the topic, as a step relation.
--   Tests: drivers that keep their rows in memory and meet every assumption, and examples.
--
-- How the code is modelled. A method is a function from the state behind its driver to a result and
-- the state after it. A driver call may come back with a fault at any time; after a fault on a write
-- nobody knows whether the write has come through, and the theorems hold in either case. A UUID is a
-- number, a time is a number, `time.Now()` is an argument, one for each call of a method. `int64` and
-- `int` are integers whose sums go through wrap64. The loops of the program run over lists, so they
-- need no fuel; the reads of the topics at the start make at most five attempts, as in the code.
--
-- Bounds. Amounts and balances are 64-bit; a balance in the table is non-negative by its constraint,
-- which is why a sum that wraps around is refused.
--
-- Assumptions. PostgreSQL transactions follow one another, which row locks see to for those on the
-- same account; a commit or a rollback is all or nothing; the constraints of the schema hold of what
-- a successful write leaves; MongoDB calls have their documented effect on one collection; the JSON of
-- an entry is read back, also after PostgreSQL has kept it as JSONB, and that of a dead letter is up
-- to bytes that are no UTF-8. gin binds only values that meet the tags of the structs, and the text of
-- a UUID is not empty. viper prefers the environment and the file to a default. A Kafka writer that
-- waits for all replicas has appended what it does not refuse; partitions are those of a topic that is
-- there. A channel and the mutex of the worker pool are those of Go; the package ants runs each task
-- that it takes at most once. The migrations bring the schema up to date where they report no error.
--
-- Steps. In System and Bank a step is a whole call of the gateway, a whole request or a whole tick of
-- the poller, one after another, and in WorkerPool a call of the base service is one step. The program
-- overlaps them. Service.Overlap has the moves between which others may come: a transaction on
-- PostgreSQL, a single statement of the poller, any change of the ledger. What overlapping calls do to
-- the ledger, between the check of a transaction and the record of its failure for instance, is
-- outside the model.
--
-- Where a theorem speaks of databases that answer, records name what does: TransactionsAnswer (a
-- transaction begins and commits, its statements come back as far as the constraints, the columns and
-- JSONB allow), PollingAnswers (those of the poller do, as far as the attempts fit their column) and
-- Answers (those of MongoDB do). The other theorems hold with a fault at any call.
--
-- Not modelled: the texts of errors and the log, its middleware included; the headers of an answer;
-- contexts and timeouts other than as faults; panics other than those of the worker pool, of a page
-- size of zero and of a nil producer, and the recover of ProcessTransaction; how gin matches paths and
-- writes JSON, and the health check; the listening of the HTTP server; signals, the level of the log,
-- and the wait for goroutines at the end of a program.
pub mod Base
pub mod Domain
pub mod Platform
pub mod Data
pub mod Processor
pub mod Gateway
pub mod Config
pub mod Messaging
pub mod Bank
pub mod Programs
pub mod Tests
