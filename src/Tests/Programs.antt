-- ===== src/Tests/Programs.antt =====
-- The two programs as they start.
use innoscripta_banking_ledg.Base.{pos, String, Bool, true, false, Option, some, none}
use innoscripta_banking_ledg.Platform.Reply.{done}
use innoscripta_banking_ledg.Platform.Connections.{upped, Migrate, PoolConfig, Pgxpool, MongoDriver}
use innoscripta_banking_ledg.Config.Load.{Value, Viper}
use innoscripta_banking_ledg.Processor.WorkerPool.Factory.{AntsPool}
use innoscripta_banking_ledg.Programs.{Surroundings}
use innoscripta_banking_ledg.Tests.Loading.{layers}

-- A database is the truth value that says whether its schema is up to date.
abbrev flag_migrate : Migrate Bool
flag_migrate = record {
  new = λ source url d. (done tt, d);
  up = λ d. (upped, true);
  close = λ d. ((done tt, done tt), d);
}

abbrev any_pool : String → Option PoolConfig
any_pool url = some (record {
  conn_string = url;
  max_conns = pos 4;
  min_conns = pos 0;
  max_conn_lifetime = pos 0;
  max_conn_idle_time = pos 0;
})

abbrev flag_pgx : Pgxpool Bool
flag_pgx = record {
  parse_config = any_pool;
  new_with_config = λ pool d. (done tt, d);
  ping = λ d. (done tt, d);
  close = λ d. d;
}

abbrev answering_driver : MongoDriver (Unit {0})
answering_driver = record {
  connect = λ options m. (done tt, m);
  ping = λ timeout m. (done tt, m);
  disconnect = λ m. (done tt, m);
}

abbrev small_pool : AntsPool (Unit {0})
small_pool = record {
  new_pool = λ size k. (done tt, k);
  release = λ k. k;
  running = λ k. 0;
  cap = λ k. 10;
}

abbrev defaults_only : Viper (String → Option Value)
defaults_only = layers (λ key. none)

-- An old schema and a Kafka without topics.
abbrev bare : Surroundings Bool (Unit {0}) Bool (Unit {0})
bare = record { postgres = false; mongo = tt; kafka = false; pool = tt }
