-- ===== src/Platform/Querier.antt =====
-- internal/platform/persistence/postgres.go: `Querier`, which is a connection pool or a transaction,
-- with one operation for each kind of statement that the repositories send. PostgreSQL and pgx are
-- not part of the repository: they are a parameter of the model. `Q` is the state behind them.
use innoscripta_banking_ledg.Base.{
  ℕ, ℤ, ◌≡◌, ◌⊎◌, Bool, true, Option, List, ◌∷◌, [], ◌++◌, count, update_all, remove_all,
}
use innoscripta_banking_ledg.Domain.Account.{Account}
use innoscripta_banking_ledg.Domain.Outbox.{Message}
use innoscripta_banking_ledg.Platform.Reply.{Reply, done, fault, Found, Wrote, Affected, Batch}
use innoscripta_banking_ledg.Platform.Schema.{accounts_schema, outbox_schema}

pub record Querier (B Q : Type 0) : Type 0 where
  -- SELECT ... FROM accounts WHERE, with or without FOR UPDATE; `done none` is `pgx.ErrNoRows`
  pub select_account : (Account → Bool) → Q → Reply (Option Account) × Q
  -- INSERT INTO accounts
  pub insert_account : Account → Q → Reply (Unit {0}) × Q
  -- UPDATE accounts SET ... WHERE; the number is `RowsAffected`
  pub update_accounts : (Account → Bool) → (Account → Account) → Q → Reply ℕ × Q
  pub select_message : (Message B → Bool) → Q → Reply (Option (Message B)) × Q
  -- SELECT ... WHERE ... ORDER BY created_at ASC LIMIT
  pub select_messages : (Message B → Bool) → ℤ → Q → Reply (List (Message B)) × Q
  -- INSERT INTO transaction_outbox ... RETURNING id
  pub insert_message : Message B → Q → Reply ℕ × Q
  pub update_messages : (Message B → Bool) → (Message B → Message B) → Q → Reply ℕ × Q
  pub delete_messages : (Message B → Bool) → Q → Reply ℕ × Q

-- The sequence behind `id` numbers an inserted message, and the reply says how, if it comes.
abbrev pub Inserted :
    {B : Type 0} → Message B → List (Message B) → Reply ℕ → List (Message B) → Type 0
Inserted m before (done n) after =
    (after ≡ before ++ record m { id = n } ∷ []) × (outbox_schema after ≡ true)
Inserted m before fault after =
    (after ≡ before)
    ⊎ ((n : ℕ) × (after ≡ before ++ record m { id = n } ∷ []) × (outbox_schema after ≡ true))

-- The documented effect of each statement on the tables.
pub record Statements {B Q : Type 0} (q : Querier B Q) (accounts : Q → List Account)
    (messages : Q → List (Message B)) : Type 0 where
  pub select_account_finds :
      (p : Account → Bool) (s : Q) → Found p (accounts s) (q.select_account p s).0
  pub select_account_keeps :
      (p : Account → Bool) (s : Q)
      → (accounts (q.select_account p s).1 ≡ accounts s)
        × (messages (q.select_account p s).1 ≡ messages s)
  pub insert_account_writes :
      (a : Account) (s : Q)
      → Wrote accounts_schema
          (accounts s)
          (accounts s ++ a ∷ [])
          (q.insert_account a s).0
          (accounts (q.insert_account a s).1)
  pub insert_account_keeps : (a : Account) (s : Q) → messages (q.insert_account a s).1 ≡ messages s
  pub update_accounts_writes :
      (p : Account → Bool) (f : Account → Account) (s : Q)
      → Wrote accounts_schema
          (accounts s)
          (update_all p f (accounts s))
          (q.update_accounts p f s).0
          (accounts (q.update_accounts p f s).1)
  pub update_accounts_counts :
      (p : Account → Bool) (f : Account → Account) (s : Q)
      → Affected (count p (accounts s)) (q.update_accounts p f s).0
  pub update_accounts_keeps :
      (p : Account → Bool) (f : Account → Account) (s : Q)
      → messages (q.update_accounts p f s).1 ≡ messages s
  pub select_message_finds :
      (p : Message B → Bool) (s : Q) → Found p (messages s) (q.select_message p s).0
  pub select_message_keeps :
      (p : Message B → Bool) (s : Q)
      → (accounts (q.select_message p s).1 ≡ accounts s)
        × (messages (q.select_message p s).1 ≡ messages s)
  pub select_messages_finds :
      (p : Message B → Bool) (limit : ℤ) (s : Q)
      → Batch p limit (messages s) (q.select_messages p limit s).0
  pub select_messages_keeps :
      (p : Message B → Bool) (limit : ℤ) (s : Q)
      → (accounts (q.select_messages p limit s).1 ≡ accounts s)
        × (messages (q.select_messages p limit s).1 ≡ messages s)
  pub insert_message_writes :
      (m : Message B) (s : Q)
      → Inserted m (messages s) (q.insert_message m s).0 (messages (q.insert_message m s).1)
  pub insert_message_keeps :
      (m : Message B) (s : Q) → accounts (q.insert_message m s).1 ≡ accounts s
  pub update_messages_writes :
      (p : Message B → Bool) (f : Message B → Message B) (s : Q)
      → Wrote outbox_schema
          (messages s)
          (update_all p f (messages s))
          (q.update_messages p f s).0
          (messages (q.update_messages p f s).1)
  pub update_messages_counts :
      (p : Message B → Bool) (f : Message B → Message B) (s : Q)
      → Affected (count p (messages s)) (q.update_messages p f s).0
  pub update_messages_keeps :
      (p : Message B → Bool) (f : Message B → Message B) (s : Q)
      → accounts (q.update_messages p f s).1 ≡ accounts s
  pub delete_messages_writes :
      (p : Message B → Bool) (s : Q)
      → Wrote outbox_schema
          (messages s)
          (remove_all p (messages s))
          (q.delete_messages p s).0
          (messages (q.delete_messages p s).1)
  pub delete_messages_counts :
      (p : Message B → Bool) (s : Q) → Affected (count p (messages s)) (q.delete_messages p s).0
  pub delete_messages_keeps :
      (p : Message B → Bool) (s : Q) → accounts (q.delete_messages p s).1 ≡ accounts s

-- The tables that a querier shows. Rows are listed in the order of their insertion.
pub record IsQuerier {B Q : Type 0} (q : Querier B Q) : Type 0 where
  pub accounts : Q → List Account
  pub messages : Q → List (Message B)
  pub statements : Statements q accounts messages
  pub open statements use *
