-- ===== src/Tests/Steady.antt =====
-- The drivers in memory that are never down.
use innoscripta_banking_ledg.Base.{
  ℕ, ◌+◌, ◌<◌, ◌≤◌, ◌≡◌, true, none, not, List, [], ◌∷◌, ◌++◌, Bool, all_of, distinct, refl, false,
  arith, ◌==◌, update_all, count, find?,
}
use innoscripta_banking_ledg.Domain.Ledger.{Entry}
use innoscripta_banking_ledg.Domain.Outbox.{Message}
use innoscripta_banking_ledg.Domain.Outbox.Content.{contents-update_all, outbox_schema_of_contents}
use innoscripta_banking_ledg.Platform.Reply.{done}
use innoscripta_banking_ledg.Platform.Schema.{outbox_schema}
use innoscripta_banking_ledg.Platform.Postgres.{Postgres, IsPostgres, Transactions}
use innoscripta_banking_ledg.Processor.AccountManager.Success.{AccountsAnswer}
use innoscripta_banking_ledg.Processor.Service.Success.{TransactionsAnswer}
use innoscripta_banking_ledg.Platform.Querier.{Querier, IsQuerier, Statements}
use innoscripta_banking_ledg.Platform.Collection.{Collection, IsCollection, Calls, matched}
use innoscripta_banking_ledg.Data.OutboxRepository.{with_status}
use innoscripta_banking_ledg.Data.LedgerRepository.Answering.{Answers}
use innoscripta_banking_ledg.Processor.Publisher.Success.{UpdatesAnswer}
use innoscripta_banking_ledg.Tests.InMemory.{
  Store, Documents, store_querier, store_querier-Statements, store_collection,
  store_collection-Calls,
}

abbrev up : Store → Store
up s = record s { down = false }

-- A number that no message has.
abbrev fresh_number : List (Message Entry) → ℕ
fresh_number [] = 1
fresh_number (m ∷ queue) = m.id + fresh_number queue

abbrev numbered : Store → Store
numbered s = record s { next = fresh_number s.queue; down = false }

abbrev pub steady_querier : Querier Entry Store
steady_querier = record {
  select_account = λ p s. store_querier.select_account p (up s);
  insert_account = λ a s. store_querier.insert_account a (up s);
  update_accounts = λ p f s. store_querier.update_accounts p f (up s);
  select_message = λ p s. store_querier.select_message p (up s);
  select_messages = λ p limit s. store_querier.select_messages p limit (up s);
  insert_message = λ m s. store_querier.insert_message m (numbered s);
  update_messages = λ p f s. store_querier.update_messages p f (up s);
  delete_messages = λ p s. store_querier.delete_messages p (up s);
}

pub steady_querier-Statements : Statements steady_querier (λ s. s.rows) (λ s. s.queue)
steady_querier-Statements =
    let laws = store_querier-Statements in
    record {
      select_account_finds = λ p s. laws.select_account_finds p (up s);
      select_account_keeps = λ p s. laws.select_account_keeps p (up s);
      insert_account_writes = λ a s. laws.insert_account_writes a (up s);
      insert_account_keeps = λ a s. laws.insert_account_keeps a (up s);
      update_accounts_writes = λ p f s. laws.update_accounts_writes p f (up s);
      update_accounts_counts = λ p f s. laws.update_accounts_counts p f (up s);
      update_accounts_keeps = λ p f s. laws.update_accounts_keeps p f (up s);
      select_message_finds = λ p s. laws.select_message_finds p (up s);
      select_message_keeps = λ p s. laws.select_message_keeps p (up s);
      select_messages_finds = λ p limit s. laws.select_messages_finds p limit (up s);
      select_messages_keeps = λ p limit s. laws.select_messages_keeps p limit (up s);
      insert_message_writes = λ m s. laws.insert_message_writes m (numbered s);
      insert_message_keeps = λ m s. laws.insert_message_keeps m (numbered s);
      update_messages_writes = λ p f s. laws.update_messages_writes p f (up s);
      update_messages_counts = λ p f s. laws.update_messages_counts p f (up s);
      update_messages_keeps = λ p f s. laws.update_messages_keeps p f (up s);
      delete_messages_writes = λ p s. laws.delete_messages_writes p (up s);
      delete_messages_counts = λ p s. laws.delete_messages_counts p (up s);
      delete_messages_keeps = λ p s. laws.delete_messages_keeps p (up s);
    }

unfoldable pub steady_querier-IsQuerier : IsQuerier steady_querier
steady_querier-IsQuerier = record {
  accounts = λ s. s.rows;
  messages = λ s. s.queue;
  statements = steady_querier-Statements;
}

pub steady_querier-UpdatesAnswer : UpdatesAnswer steady_querier steady_querier-IsQuerier
unfolding steady_querier-IsQuerier
steady_querier-UpdatesAnswer = record {
  status_answers = λ id status now s schema. (
    count (λ row. row.id == id) s.queue,
    ground (
      arith,
      outbox_schema_of_contents s.queue
          (update_all (λ (row : Message Entry). row.id == id) (with_status status now) s.queue)
          (contents-update_all (λ row. row.id == id) (with_status status now) (λ m. refl) s.queue)
          schema,
    ),
  );
}

abbrev up_docs : Documents → Documents
up_docs d = record d { down = false }

abbrev pub steady_collection : Collection Documents
steady_collection = record {
  find_one = λ p d. store_collection.find_one p (up_docs d);
  insert_one = λ e d. store_collection.insert_one e (up_docs d);
  update_one = λ p f d. store_collection.update_one p f (up_docs d);
  find = λ p skip limit d. store_collection.find p skip limit (up_docs d);
  count_documents = λ p d. store_collection.count_documents p (up_docs d);
}

pub steady_collection-Calls : Calls steady_collection (λ d. d.docs)
steady_collection-Calls =
    let laws = store_collection-Calls in
    record {
      find_one_finds = λ p d. laws.find_one_finds p (up_docs d);
      find_one_keeps = λ p d. laws.find_one_keeps p (up_docs d);
      insert_one_writes = λ e d. laws.insert_one_writes e (up_docs d);
      update_one_writes = λ p f d. laws.update_one_writes p f (up_docs d);
      update_one_counts = λ p f d. laws.update_one_counts p f (up_docs d);
      find_finds = λ p skip limit d positive. laws.find_finds p skip limit (up_docs d) positive;
      find_keeps = λ p skip limit d. laws.find_keeps p skip limit (up_docs d);
      count_documents_counts = λ p d. laws.count_documents_counts p (up_docs d);
      count_documents_keeps = λ p d. laws.count_documents_keeps p (up_docs d);
    }

unfoldable pub steady_collection-IsCollection : IsCollection steady_collection
steady_collection-IsCollection = record { entries = λ d. d.docs; calls = steady_collection-Calls }

pub steady_collection-Answers : Answers steady_collection
steady_collection-Answers = record {
  find_one_answers = λ p d. (find? p d.docs, refl);
  insert_one_answers = λ e d. refl;
  update_one_answers = λ p f d. (matched (find? p d.docs), refl);
}

all_of_last :
    (t : Message Entry → Bool) (queue : List (Message Entry)) (m : Message Entry)
    → all_of t queue ≡ true
    → t m ≡ true
    → all_of t (queue ++ m ∷ []) ≡ true
all_of_last t [] m h e = ground arith
all_of_last t (x ∷ queue) m h e = ground (arith, all_of_last t queue m)

-- A message with a key of its own joins distinct messages.
distinct_last :
    (key : Message Entry → ℕ) (queue : List (Message Entry)) (m : Message Entry)
    → distinct (λ a b. key a == key b) queue ≡ true
    → find? (λ r. key r == key m) queue ≡ none
    → distinct (λ a b. key a == key b) (queue ++ m ∷ []) ≡ true
distinct_last key [] m d h = refl
distinct_last key (x ∷ queue) m d h =
    ground (arith, all_of_last (λ y. not (key x == key y)) queue m, distinct_last key queue m)

number_is_fresh :
    (n : ℕ) (queue : List (Message Entry))
    → fresh_number queue ≤ n
    → find? (λ r. r.id == n) queue ≡ none
number_is_fresh n [] h = refl
number_is_fresh n (m ∷ queue) h = ground (arith, number_is_fresh n queue, positive_number queue)
  where
    positive_number : (queue : List (Message Entry)) → 0 < fresh_number queue
    positive_number [] = omega arith
    positive_number (m ∷ queue) = ground (arith, positive_number queue)

-- Transactions that always begin and commit.
abbrev pub steady_postgres : Postgres Entry Store Store
steady_postgres = record {
  pool = steady_querier;
  tx = steady_querier;
  begin = λ s. (done s, s);
  commit = λ x s. (done tt, x);
  rollback = λ x s. (done tt, s);
}

pub steady_postgres-Transactions :
    Transactions steady_postgres steady_querier-IsQuerier steady_querier-IsQuerier
unfolding steady_querier-IsQuerier
steady_postgres-Transactions = record {
  begin_lem = λ p. ((refl, refl), (refl, refl));
  commit_lem = λ x p. (refl, refl);
  rollback_lem = λ x p. (refl, refl);
}

unfoldable pub steady_postgres-IsPostgres : IsPostgres steady_postgres
steady_postgres-IsPostgres = record {
  pool = steady_querier-IsQuerier;
  tx = steady_querier-IsQuerier;
  transactions = steady_postgres-Transactions;
}

unfoldable pub steady_querier-AccountsAnswer :
    AccountsAnswer steady_querier steady_querier-IsQuerier
unfolding steady_querier-IsQuerier
steady_querier-AccountsAnswer = record {
  storable = λ text. true;
  select_answers = λ p s. (find? p s.rows, refl);
  update_answers = λ p f s schema columns. (count p s.rows, rw schema refl);
}

pub inserted_schema :
    (m : Message Entry) (s : Store)
    → outbox_schema s.queue ≡ true
    → find? (λ row. row.transaction_id == m.transaction_id) s.queue ≡ none
    → outbox_schema (s.queue ++ record m { id = fresh_number s.queue } ∷ []) ≡ true
inserted_schema m s schema missing = ground (
  arith,
  distinct_last (λ r. r.id) s.queue (record m { id = fresh_number s.queue }),
  distinct_last (λ r. r.transaction_id) s.queue (record m { id = fresh_number s.queue }),
  number_is_fresh (fresh_number s.queue) s.queue,
)

unfoldable pub steady_postgres-TransactionsAnswer :
    TransactionsAnswer steady_postgres steady_postgres-IsPostgres
unfolding steady_postgres-IsPostgres steady_querier-IsQuerier
steady_postgres-TransactionsAnswer = record {
  accounts = steady_querier-AccountsAnswer;
  begin_answers = λ p. (p, refl);
  is_jsonb = λ e. true;
  insert_answers = λ m s a schema missing there taken attempts.
      (fresh_number s.queue, rw (inserted_schema m s schema missing) refl);
  commit_answers = λ x p. refl;
}
