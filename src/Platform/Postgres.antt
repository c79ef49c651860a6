-- ===== src/Platform/Postgres.antt =====
-- internal/platform/persistence/postgres.go: the pool and its transactions. `P` is the state behind
-- the pool, `X` that of an open transaction.
use innoscripta_banking_ledg.Base.{◌≡◌, ◌⊎◌}
use innoscripta_banking_ledg.Platform.Reply.{Reply, done, fault}
use innoscripta_banking_ledg.Platform.Querier.{Querier, IsQuerier}

pub record Postgres (B P X : Type 0) : Type 0 where
  pub pool : Querier B P
  pub tx : Querier B X
  pub begin : P → Reply X × P
  pub commit : X → P → Reply (Unit {0}) × P
  pub rollback : X → P → Reply (Unit {0}) × P

module _ {B P X : Type 0} {q : Querier B P} {r : Querier B X} (pool : IsQuerier q)
    (tx : IsQuerier r) where
  -- The pool shows the tables as they were.
  abbrev pub SameTables : P → P → Type 0
  SameTables p p' = (pool.accounts p' ≡ pool.accounts p) × (pool.messages p' ≡ pool.messages p)

  -- The pool shows what the transaction shows.
  abbrev pub TxTables : X → P → Type 0
  TxTables x p = (pool.accounts p ≡ tx.accounts x) × (pool.messages p ≡ tx.messages x)

  abbrev pub Began : P → Reply X × P → Type 0
  Began p (done x, p') = SameTables p p' × TxTables x p
  Began p (fault, p') = SameTables p p'

  -- A commit takes effect as a whole or not at all; if its answer is a fault, either may be the case.
  abbrev pub Committed : X → P → Reply (Unit {0}) × P → Type 0
  Committed x p (done _, p') = TxTables x p'
  Committed x p (fault, p') = SameTables p p' ⊎ TxTables x p'

-- What PostgreSQL promises of transactions that run one after the other, which is the case of those
-- that lock the same account row.
pub record Transactions {B P X : Type 0} (pg : Postgres B P X) (pool : IsQuerier pg.pool)
    (tx : IsQuerier pg.tx) : Type 0 where
  pub begin_lem : (p : P) → Began pool tx p (pg.begin p)
  pub commit_lem : (x : X) (p : P) → Committed pool tx x p (pg.commit x p)
  pub rollback_lem : (x : X) (p : P) → SameTables pool tx p (pg.rollback x p).1

pub record IsPostgres {B P X : Type 0} (pg : Postgres B P X) : Type 0 where
  pub pool : IsQuerier pg.pool
  pub tx : IsQuerier pg.tx
  pub transactions : Transactions pg pool tx
  pub open transactions use *
