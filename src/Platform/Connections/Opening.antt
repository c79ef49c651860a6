-- ===== src/Platform/Connections/Opening.antt =====
-- What a connection to PostgreSQL that has been opened rests on.
use innoscripta_banking_ledg.Base.{
  String, ◌≡◌, inl, inr, refl, ◌∙◌, Bool, true, Bool-cases, Option, none, some, str_eq,
}
use innoscripta_banking_ledg.Domain.Result.{Result, ok, err}
use innoscripta_banking_ledg.Platform.Reply.{Reply, done, fault}
use innoscripta_banking_ledg.Config.Stores.{PostgresConfig}
use innoscripta_banking_ledg.Platform.Connections.{
  Upped, upped, no_change, up_failed, Migrate, close_migrations, after_up, after_new,
  run_migrations, PoolConfig, Pgxpool, configured, after_pool, after_parse, after_migrations,
  pinged, new_postgres_db,
}

-- `Up` with no error, or with nothing to do, leaves the schema up to date.
abbrev pub Migrated : Upped → Bool → Type 0
Migrated upped current = current ≡ true
Migrated no_change current = current ≡ true
Migrated up_failed current = Unit

-- What migrate and pgxpool document: `Up` brings the schema up to date, and nothing else takes it back.
pub record IsMigrate {D : Type 0} (migrate : Migrate D) (pgx : Pgxpool D) : Type 0 where
  pub is_current : D → Bool
  pub up_migrates : (d : D) → Migrated (migrate.up d).0 (is_current (migrate.up d).1)
  pub close_keeps : (d : D) → is_current (migrate.close d).1 ≡ is_current d
  pub new_with_config_keeps :
      (pool : PoolConfig) (d : D) → is_current (pgx.new_with_config pool d).1 ≡ is_current d
  pub ping_keeps : (d : D) → is_current (pgx.ping d).1 ≡ is_current d

module _ {D : Type 0} (migrate : Migrate D) (pgx : Pgxpool D) (i : IsMigrate migrate pgx) where
  -- No error means that the schema is up to date.
  abbrev Current : {A : Type 0} → Result A → D → Type 0
  Current (ok _) d = i.is_current d ≡ true
  Current (err _) d = Unit

  closed_current :
      (d : D) → i.is_current d ≡ true → i.is_current (close_migrations migrate d).1 ≡ true
  unfolding close_migrations
  closed_current d current = i.close_keeps d ∙ current

  Current-of_result : (r : Result (Unit {0})) (d : D) → i.is_current d ≡ true → Current r d
  Current-of_result (ok _) d current = current
  Current-of_result (err _) d current = tt

  after_up-Current :
      (u : Upped) (d : D)
      → Migrated u (i.is_current d)
      → let (r, d') = after_up migrate u d in Current r d'
  unfolding after_up
  after_up-Current upped d current = Current-of_result _ _ (closed_current d current)
  after_up-Current no_change d current = Current-of_result _ _ (closed_current d current)
  after_up-Current up_failed d current = tt

  after_new-Current :
      (n : Reply (Unit {0})) (d : D) → let (r, d') = after_new migrate n d in Current r d'
  unfolding after_new
  after_new-Current fault d = tt
  after_new-Current (done _) d =
      after_up-Current (migrate.up d).0 (migrate.up d).1 (i.up_migrates d)

  run_migrations-Current :
      (url path : String) (d : D) → let (r, d') = run_migrations migrate url path d in Current r d'
  unfolding run_migrations
  run_migrations-Current url path d = elim (Bool-cases (str_eq path "")) [
    | inl empty ↦ rw empty tt
    | inr given ↦ elim (Bool-cases (str_eq url "")) [
      | inl empty ↦ rw (given, empty) tt
      | inr given' ↦ rw (given, given') (after_new-Current _ _)
    ]
  ]

  -- The schema is up to date, and the pool has the string of the configuration and its limits.
  abbrev pub Opened : PostgresConfig → Result PoolConfig → D → Type 0
  Opened cfg (ok pool) d =
      (i.is_current d ≡ true)
      × ((p : PoolConfig) × (pgx.parse_config cfg.url ≡ some p) × (pool ≡ configured cfg p))
  Opened cfg (err _) d = Unit

  after_pool-Opened :
      (cfg : PostgresConfig) (p : PoolConfig) (n : Reply (Unit {0})) (d : D)
      → pgx.parse_config cfg.url ≡ some p
      → i.is_current d ≡ true
      → let (r, d') = after_pool migrate pgx (configured cfg p) n d in Opened cfg r d'
  unfolding after_pool
  after_pool-Opened cfg p fault d parsed current = tt
  after_pool-Opened cfg p (done _) d parsed current =
      pinged-Opened (pgx.ping d).0 (pgx.ping d).1 (i.ping_keeps d ∙ current)
    where
      pinged-Opened :
          (n : Reply (Unit {0})) (d' : D)
          → i.is_current d' ≡ true
          → Opened cfg (pinged migrate pgx (configured cfg p) n) d'
      pinged-Opened (done _) d' current' = (current', (p, parsed, refl))
      pinged-Opened fault d' current' = tt

  after_parse-Opened :
      (cfg : PostgresConfig) (o : Option PoolConfig) (d : D)
      → pgx.parse_config cfg.url ≡ o
      → i.is_current d ≡ true
      → let (r, d') = after_parse migrate pgx cfg o d in Opened cfg r d'
  unfolding after_parse
  after_parse-Opened cfg none d parsed current = tt
  after_parse-Opened cfg (some p) d parsed current =
      let (n, d') = pgx.new_with_config (configured cfg p) d in
      after_pool-Opened cfg p n d' parsed (i.new_with_config_keeps (configured cfg p) d ∙ current)

  after_migrations-Opened :
      (cfg : PostgresConfig) (r : Result (Unit {0})) (d : D)
      → Current r d
      → let (r', d') = after_migrations migrate pgx cfg r d in Opened cfg r' d'
  unfolding after_migrations
  after_migrations-Opened cfg (err e) d current = tt
  after_migrations-Opened cfg (ok _) d current = after_parse-Opened cfg _ d refl current

  -- A connection that is opened finds the schema up to date.
  pub new_postgres_db-Opened :
      (cfg : PostgresConfig) (d : D)
      → let (r, d') = new_postgres_db migrate pgx cfg d in Opened cfg r d'
  unfolding new_postgres_db
  new_postgres_db-Opened cfg d =
      let (r, d') = run_migrations migrate cfg.url cfg.migrations_path d in
      after_migrations-Opened cfg r d' (run_migrations-Current cfg.url cfg.migrations_path d)
