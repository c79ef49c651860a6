-- ===== src/Tests/InMemory.antt =====
-- Drivers that keep their rows in memory and keep every promise: the parameters of the model can be
-- met. A store that is down answers every call with a fault.
use innoscripta_banking_ledg.Base.{
  ℕ, zero, suc, pos, pos_part, ◌≤◌, ◌≡◌, refl, sym, Bool, true, false, some, List, [], ◌∷◌, ◌++◌,
  length, find?, count, update_all, update_first, remove_all, All, All-mono, Bool-cases, inl, inr,
  ℤ, if◌then◌else◌, arith,
}
use innoscripta_banking_ledg.Domain.Account.{Account}
use innoscripta_banking_ledg.Domain.Ledger.{Entry}
use innoscripta_banking_ledg.Domain.Outbox.{Message, Json, IsJson}
use innoscripta_banking_ledg.Platform.Reply.{Reply, done, fault, Wrote, Batch}
use mathlib.Core.List.{Memᴰ}
use innoscripta_banking_ledg.Platform.Schema.{accounts_schema, outbox_schema}
use innoscripta_banking_ledg.Platform.Querier.{Querier, IsQuerier, Statements}
use innoscripta_banking_ledg.Platform.Postgres.{Postgres, IsPostgres, Transactions}
use innoscripta_banking_ledg.Platform.Collection.{Collection, IsCollection, Calls, matched}

-- The rows that pass a test, at most so many.
abbrev pub take_where : {A : Type 0} → (A → Bool) → ℕ → List A → List A
take_where p zero xs = []
take_where p (suc n) [] = []
take_where p (suc n) (x ∷ xs) = elim (p x) [
  | true ↦ x ∷ take_where p n xs
  | false ↦ take_where p (suc n) xs
]

pub take_where_batch :
    {A : Type 0} (p : A → Bool) (n : ℕ) (xs : List A)
    → (length (take_where p n xs) ≤ n) × All (λ x. (p x ≡ true) × Memᴰ x xs) (take_where p n xs)
take_where_batch p zero xs = (omega arith, tt)
take_where_batch p (suc n) [] = (omega arith, tt)
take_where_batch p (suc n) (x ∷ xs) = elim (Bool-cases (p x)) [
  | inl passes ↦
      rw (passes, take_where)
        (
          ground (arith, take_where_batch p n xs),
          (
            (passes, Memᴰ.head refl),
            All-mono _ _ (λ y (e, at). (e, Memᴰ.tail at)) _ (take_where_batch p n xs).1,
          ),
        )
  | inr fails ↦
      rw (fails, take_where)
        (
          (take_where_batch p (suc n) xs).0,
          All-mono _ _ (λ y (e, at). (e, Memᴰ.tail at)) _ (take_where_batch p (suc n) xs).1,
        )
]

abbrev answer_rows : {A : Type 0} → Bool → (A → Bool) → ℤ → List A → Reply (List A)
answer_rows down p limit rows = if down then fault else done (take_where p (pos_part limit) rows)

answer_rows-Batch :
    {A : Type 0} (down : Bool) (p : A → Bool) (limit : ℤ) (rows : List A)
    → Batch p limit rows (answer_rows down p limit rows)
answer_rows-Batch true p limit rows = tt
answer_rows-Batch false p limit rows = take_where_batch p (pos_part limit) rows

-- The payload of a message is the entry itself.
pub record Store : Type 0 where
  pub rows : List Account
  pub queue : List (Message Entry)
  pub next : ℕ
  pub down : Bool

abbrev answer : {A : Type 0} → Store → A → Reply A × Store
answer s a = (if s.down then fault else done a, s)

abbrev write_accounts : {A : Type 0} → Store → List Account → A → Reply A × Store
write_accounts s rows a =
    if s.down
    then (fault, s)
    else if accounts_schema rows
    then (done a, record s { rows = rows })
    else (fault, s)

abbrev write_messages : {A : Type 0} → Store → List (Message Entry) → ℕ → A → Reply A × Store
write_messages s queue next a =
    if s.down
    then (fault, s)
    else if outbox_schema queue
    then (done a, record s { queue = queue; next = next })
    else (fault, s)

abbrev pub store_querier : Querier Entry Store
store_querier = record {
  select_account = λ p s. answer s (find? p s.rows);
  insert_account = λ a s. write_accounts s (s.rows ++ a ∷ []) tt;
  update_accounts = λ p f s. write_accounts s (update_all p f s.rows) (count p s.rows);
  select_message = λ p s. answer s (find? p s.queue);
  select_messages = λ p limit s. answer s (take_where p (pos_part limit) s.queue);
  insert_message =
      λ m s. write_messages s (s.queue ++ record m { id = s.next } ∷ []) (suc s.next) s.next;
  update_messages = λ p f s. write_messages s (update_all p f s.queue) s.next (count p s.queue);
  delete_messages = λ p s. write_messages s (remove_all p s.queue) s.next (count p s.queue);
}

pub write_accounts-Wrote :
    {A : Type 0} (s : Store) (rows : List Account) (a : A)
    → let (r, s') = write_accounts s rows a in Wrote accounts_schema s.rows rows r s'.rows
write_accounts-Wrote s rows a = ground arith

pub store_querier-Statements : Statements store_querier (λ s. s.rows) (λ s. s.queue)
store_querier-Statements = record {
  select_account_finds = λ p s. ground arith;
  select_account_keeps = λ p s. (refl, refl);
  insert_account_writes = λ a s. write_accounts-Wrote s (s.rows ++ a ∷ []) tt;
  insert_account_keeps = λ a s. ground arith;
  update_accounts_writes = λ p f s. write_accounts-Wrote s (update_all p f s.rows) (count p s.rows);
  update_accounts_counts = λ p f s. ground arith;
  update_accounts_keeps = λ p f s. ground arith;
  select_message_finds = λ p s. ground arith;
  select_message_keeps = λ p s. (refl, refl);
  select_messages_finds = λ p limit s. answer_rows-Batch s.down p limit s.queue;
  select_messages_keeps = λ p limit s. (refl, refl);
  insert_message_writes = λ m s. ground arith;
  insert_message_keeps = λ m s. ground arith;
  update_messages_writes = λ p f s. ground arith;
  update_messages_counts = λ p f s. ground arith;
  update_messages_keeps = λ p f s. ground arith;
  delete_messages_writes = λ p s. ground arith;
  delete_messages_counts = λ p s. ground arith;
  delete_messages_keeps = λ p s. ground arith;
}

unfoldable pub store_querier-IsQuerier : IsQuerier store_querier
store_querier-IsQuerier = record {
  accounts = λ s. s.rows;
  messages = λ s. s.queue;
  statements = store_querier-Statements;
}

-- A transaction works on a copy of the store. A store that is down loses its connections.
abbrev pub store_postgres : Postgres Entry Store Store
store_postgres = record {
  pool = store_querier;
  tx = store_querier;
  begin = λ s. answer s s;
  commit = λ x s. if s.down then (fault, s) else (done tt, x);
  rollback = λ x s. answer s tt;
}

pub store_postgres-Transactions :
    Transactions store_postgres store_querier-IsQuerier store_querier-IsQuerier
unfolding store_querier-IsQuerier
store_postgres-Transactions = record {
  begin_lem = λ p. ground arith;
  commit_lem = λ x p. ground arith;
  rollback_lem = λ x p. (refl, refl);
}

unfoldable pub store_postgres-IsPostgres : IsPostgres store_postgres
unfolding store_querier-IsQuerier
store_postgres-IsPostgres = record {
  pool = store_querier-IsQuerier;
  tx = store_querier-IsQuerier;
  transactions = store_postgres-Transactions;
}

pub record Documents : Type 0 where
  pub docs : List Entry
  pub down : Bool

abbrev reply : {A : Type 0} → Documents → A → Reply A × Documents
reply d a = (if d.down then fault else done a, d)

abbrev write_docs : {A : Type 0} → Documents → List Entry → A → Reply A × Documents
write_docs d docs a = if d.down then (fault, d) else (done a, record d { docs = docs })

abbrev pub store_collection : Collection Documents
store_collection = record {
  find_one = λ p d. reply d (find? p d.docs);
  insert_one = λ e d. write_docs d (d.docs ++ e ∷ []) tt;
  update_one = λ p f d. write_docs d (update_first p f d.docs) (matched (find? p d.docs));
  find = λ p skip limit d. reply d (take_where p (pos_part limit) d.docs);
  count_documents = λ p d. reply d (pos (count p d.docs));
}

pub store_collection-Calls : Calls store_collection (λ d. d.docs)
store_collection-Calls = record {
  find_one_finds = λ p d. ground arith;
  find_one_keeps = λ p d. refl;
  insert_one_writes = λ e d. ground arith;
  update_one_writes = λ p f d. ground arith;
  update_one_counts = λ p f d. ground arith;
  find_finds = λ p skip limit d positive. answer_rows-Batch d.down p limit d.docs;
  find_keeps = λ p skip limit d. refl;
  count_documents_counts = λ p d. ground arith;
  count_documents_keeps = λ p d. refl;
}

unfoldable pub store_collection-IsCollection : IsCollection store_collection
store_collection-IsCollection = record { entries = λ d. d.docs; calls = store_collection-Calls }

abbrev pub store_json : Json Entry
store_json = record { marshal = some; unmarshal = some }

pub store_json-IsJson : IsJson store_json
store_json-IsJson = record { round_trip = λ e b h. sym h }
