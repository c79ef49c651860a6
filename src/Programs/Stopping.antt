-- ===== src/Programs/Stopping.antt =====
-- cmd/transaction_processor/main.go and cmd/api_gateway/main.go: how the two programs stop, with `Stop`
-- of internal/api_gateway/server.go. The wait for the goroutines of the processor is not modelled.
use innoscripta_banking_ledg.Base.{String, ◌≡◌, Bool, true, false, Option, none, some}
use innoscripta_banking_ledg.Domain.Error.{wrapped, external}
use innoscripta_banking_ledg.Domain.Result.{Result, ok, err, Exec}
use innoscripta_banking_ledg.Platform.Reply.{Reply, done, fault}
use innoscripta_banking_ledg.Platform.Connections.{Pgxpool, MongoDriver, close_mongo_db}
use innoscripta_banking_ledg.Messaging.{KafkaWriter, WriterSettings}
use innoscripta_banking_ledg.Messaging.Requests.{RequestJson}
use innoscripta_banking_ledg.Messaging.Requests as Requests
use innoscripta_banking_ledg.Messaging.DeadLetters.{DlqProducer, DlqJson}
use innoscripta_banking_ledg.Messaging.DeadLetters as DeadLetters
use innoscripta_banking_ledg.Processor.Consumer.{close_consumer}
use innoscripta_banking_ledg.Processor.WorkerPool.Factory.{
  AntsPool, ProcessingService, base_service, worker_pool_service, shutdown,
}

-- What the processor has open.
pub record ProcessorResources (A W R D M : Type 0) : Type 0 where
  pub pool : A
  pub letters : W
  pub reader : R
  pub postgres : D
  pub mongo : M

-- Whether a success is reported: the error of the last call that sets it.
abbrev is_success : Result (Unit {0}) → Bool
is_success (ok _) = true
is_success (err _) = false

module _ {B A W R D M : Type 0} (ants : AntsPool A) (json : DlqJson B) (writer : KafkaWriter B W)
    (close_reader : R → Reply (Unit {0}) × R) (pgx : Pgxpool D) (driver : MongoDriver M) where
  abbrev stop_pool : ProcessingService → A → A
  stop_pool worker_pool_service pool = shutdown ants pool
  stop_pool base_service pool = pool

  abbrev letters_after : W → Option (Result (Unit {0}) × W) → W
  letters_after w none = w
  letters_after w (some (_, w')) = w'

  abbrev stop_letters : Option DlqProducer → W → W
  stop_letters none w = w
  stop_letters (some p) w = letters_after w (DeadLetters.close json writer (some p) w)

  unfoldable pub stop_processor :
      ProcessingService
      → Option DlqProducer
      → ProcessorResources A W R D M
      → Bool × ProcessorResources A W R D M
  stop_processor service dlq_producer w =
      let (_, reader) = close_consumer close_reader w.reader in
      let (r, mongo) = close_mongo_db driver w.mongo in
      (
        is_success r,
        record {
          pool = stop_pool service w.pool;
          letters = stop_letters dlq_producer w.letters;
          reader = reader;
          postgres = pgx.close w.postgres;
          mongo = mongo;
        },
      )

-- What the gateway has open.
pub record GatewayResources (D H W M : Type 0) : Type 0 where
  pub postgres : D
  pub server : H
  pub topic : W
  pub mongo : M

-- `Shutdown` of `http.Server`, twice.
module _ {H : Type 0} (shutdown_http : H → Reply (Unit {0}) × H) where
  abbrev stopped : Reply (Unit {0}) → Result (Unit {0})
  stopped (done _) = ok tt
  stopped fault = err (wrapped external)

  after_shutdown : Reply (Unit {0}) → Exec H (Unit {0})
  after_shutdown fault h = (err (wrapped external), h)
  after_shutdown (done _) h = let (r, h') = shutdown_http h in (stopped r, h')

  unfoldable pub stop_server : Exec H (Unit {0})
  unfolding after_shutdown
  stop_server h = let (r, h') = shutdown_http h in after_shutdown r h'

module _ {B D H W M : Type 0} (pgx : Pgxpool D) (shutdown_http : H → Reply (Unit {0}) × H)
    (json : RequestJson B) (writer : KafkaWriter B W) (driver : MongoDriver M) where
  unfoldable pub stop_gateway : GatewayResources D H W M → Bool × GatewayResources D H W M
  stop_gateway w =
      let (_, server) = stop_server shutdown_http w.server in
      let (_, topic) = Requests.close json writer w.topic in
      let (r, mongo) = close_mongo_db driver w.mongo in
      (
        is_success r,
        record { postgres = pgx.close w.postgres; server = server; topic = topic; mongo = mongo },
      )

-- A resource that is closed by its call, whatever the call answers.
pub record Closes {E : Type 0} (call : E → E) : Type 0 where
  pub is_closed : E → Bool
  pub closes : (e : E) → is_closed (call e) ≡ true

module _ {B A W R D M : Type 0} (ants : AntsPool A) (json : DlqJson B) (writer : KafkaWriter B W)
    (close_reader : R → Reply (Unit {0}) × R) (pgx : Pgxpool D) (driver : MongoDriver M)
    (pool : Closes ants.release) (letters : Closes (λ w. (writer.close w).1))
    (reader : Closes (λ r. (close_reader r).1)) (postgres : Closes pgx.close)
    (mongo : Closes (λ m. (driver.disconnect m).1)) where
  -- Whatever the calls answer, every resource of a processor with a worker pool and a dead letter queue
  -- is closed when it has stopped.
  stop_processor_closes :
      (settings : WriterSettings) (topic : String) (w : ProcessorResources A W R D M)
      → let dlq_producer : DlqProducer = record { writer = some settings; dlq_topic = topic } in
        let (_, w') =
          stop_processor ants json writer close_reader pgx driver worker_pool_service
            (some dlq_producer)
            w in
        (pool.is_closed w'.pool ≡ true)
        × (letters.is_closed w'.letters ≡ true)
        × (reader.is_closed w'.reader ≡ true)
        × (postgres.is_closed w'.postgres ≡ true)
        × (mongo.is_closed w'.mongo ≡ true)
  unfolding stop_processor shutdown DeadLetters.close close_mongo_db
  stop_processor_closes settings topic w = (
    pool.closes w.pool,
    letters.closes w.letters,
    reader.closes w.reader,
    postgres.closes w.postgres,
    mongo.closes w.mongo,
  )
