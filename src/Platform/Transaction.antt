-- ===== src/Platform/Transaction.antt =====
-- internal/platform/persistence/postgres.go: `ExecuteTx`. The function does not panic.
use innoscripta_banking_ledg.Base.{◌≡◌, ◌⊎◌, inl, inr, refl, ◌∙◌}
use innoscripta_banking_ledg.Domain.Error.{Error, external, wrapped}
use innoscripta_banking_ledg.Domain.Result.{Result, ok, err, Exec}
use innoscripta_banking_ledg.Platform.Reply.{Reply, done, fault}
use innoscripta_banking_ledg.Platform.Postgres.{
  Postgres, IsPostgres, SameTables, TxTables, Began, Committed,
}

-- Where the rollback fails, a new error has the texts of both and wraps neither.
abbrev rolled_back : Error → Reply (Unit {0}) → Result (Unit {0})
rolled_back e (done _) = err e
rolled_back e fault = err external

abbrev committed : Reply (Unit {0}) → Result (Unit {0})
committed (done _) = ok tt
committed fault = err external

module _ {B P X : Type 0} (pg : Postgres B P X) where
  after_function : Result (Unit {0}) → X → Exec P (Unit {0})
  after_function (err e) x p = let (r, p') = pg.rollback x p in (rolled_back e r, p')
  after_function (ok _) x p = let (r, p') = pg.commit x p in (committed r, p')

  run_function : Exec X (Unit {0}) → Reply X → Exec P (Unit {0})
  unfolding after_function
  run_function fn fault p = (err (wrapped external), p)
  run_function fn (done x) p = let (r, x') = fn x in after_function r x' p

  unfoldable pub execute_tx : Exec X (Unit {0}) → Exec P (Unit {0})
  unfolding run_function
  execute_tx fn p = let (r, p') = pg.begin p in run_function fn r p'

module _ {B P X : Type 0} (pg : Postgres B P X) (i : IsPostgres pg) (fn : Exec X (Unit {0})) where
  -- The function has succeeded on the tables as they were, and what it left is there.
  abbrev pub Applied : P → P → Type 0
  Applied p p' =
      (x : X) × TxTables i.pool i.tx x p × ((fn x).0 ≡ ok tt) × TxTables i.pool i.tx (fn x).1 p'

  abbrev pub Executed : P → Result (Unit {0}) × P → Type 0
  Executed p (ok _, p') = Applied p p'
  Executed p (err _, p') = SameTables i.pool i.tx p p' ⊎ Applied p p'

  SameTables-trans :
      (p p' p'' : P)
      → SameTables i.pool i.tx p p'
      → SameTables i.pool i.tx p' p''
      → SameTables i.pool i.tx p p''
  SameTables-trans p p' p'' (a, q) (a', q') = (a' ∙ a, q' ∙ q)

  committed-Executed :
      (p p' p'' : P) (x : X)
      → SameTables i.pool i.tx p p'
      → TxTables i.pool i.tx x p
      → (fn x).0 ≡ ok tt
      → (r : Reply (Unit {0})) → Committed i.pool i.tx (fn x).1 p' (r, p'')
      → Executed p (committed r, p'')
  committed-Executed p p' p'' x same begun done_well (done _) shown = (x, begun, done_well, shown)
  committed-Executed p p' p'' x same begun done_well fault (inl kept) =
      inl (SameTables-trans p p' p'' same kept)
  committed-Executed p p' p'' x same begun done_well fault (inr shown) =
      inr (x, begun, done_well, shown)

  rolled_back-Executed :
      (p p' : P) (e : Error)
      → SameTables i.pool i.tx p p'
      → (r : Reply (Unit {0})) → Executed p (rolled_back e r, p')
  rolled_back-Executed p p' e same (done _) = inl same
  rolled_back-Executed p p' e same fault = inl same

  after_function-Executed :
      (p p' : P) (x : X)
      → SameTables i.pool i.tx p p'
      → TxTables i.pool i.tx x p
      → (r : Result (Unit {0})) → (fn x).0 ≡ r
      → Executed p (after_function pg r (fn x).1 p')
  unfolding after_function
  after_function-Executed p p' x same begun (ok _) e =
      committed-Executed p p' _ x same begun e _ (i.commit_lem (fn x).1 p')
  after_function-Executed p p' x same begun (err e) _ =
      rolled_back-Executed p _ e (SameTables-trans p p' _ same (i.rollback_lem (fn x).1 p')) _

  run_function-Executed :
      (p p' : P) (r : Reply X) → Began i.pool i.tx p (r, p') → Executed p (run_function pg fn r p')
  unfolding run_function
  run_function-Executed p p' fault same = inl same
  run_function-Executed p p' (done x) ((a, q), (sa, sq)) =
      after_function-Executed p p' x (a, q) (sa, sq) _ refl

  -- `ExecuteTx` on every reply of PostgreSQL: success means that the function has succeeded on the
  -- tables as they were and that the pool shows what it left; after an error that is so, or the
  -- tables are what they were.
  pub execute_tx-Executed : (p : P) → Executed p (execute_tx pg fn p)
  unfolding execute_tx
  execute_tx-Executed p = run_function-Executed p _ _ (i.begin_lem p)
