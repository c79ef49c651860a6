-- ===== src/Processor/OutboxManager/Queueing.antt =====
-- What `CreateOutboxEntry` has written when it succeeds: one pending message, at the end.
use innoscripta_banking_ledg.Base.{
  ℕ, ◌≡◌, refl, true, some, inl, inr, List, [], ◌∷◌, ◌++◌, Option-cases,
}
use innoscripta_banking_ledg.Domain.Shared.{TransactionRequest}
use innoscripta_banking_ledg.Domain.Result.{Result, ok, err}
use innoscripta_banking_ledg.Domain.Outbox.{Message, Json, message_of, new_message}
use innoscripta_banking_ledg.Platform.Querier.{Querier, IsQuerier, Inserted}
use innoscripta_banking_ledg.Platform.Reply.{Reply, done, fault}
use innoscripta_banking_ledg.Platform.Schema.{outbox_schema}
use innoscripta_banking_ledg.Data.OutboxRepository.{create, with_id}
use innoscripta_banking_ledg.Processor.OutboxManager.{
  ledger_entry_for_outbox, outbox_created, store_message, create_outbox_entry,
}

-- The message of a request stands behind the others, under a number of its own, and no two messages
-- are of the same transaction.
pub record Queued {B : Type 0} (json : Json B) (request : TransactionRequest) (now : ℕ)
    (before after : List (Message B)) : Type 0 where
  pub payload : B
  pub marshalled : json.marshal (ledger_entry_for_outbox request) ≡ some payload
  pub number : ℕ
  pub row :
      after
      ≡ before
        ++ record (message_of (ledger_entry_for_outbox request) now payload) { id = number } ∷ []
  pub schema : outbox_schema after ≡ true

module _ {B : Type 0} (json : Json B) (request : TransactionRequest) (now : ℕ) where
  abbrev pub QueuedIf : List (Message B) → List (Message B) → Result (Unit {0}) → Type 0
  QueuedIf before after (ok _) = Queued json request now before after
  QueuedIf before after (err _) = Unit

module _ {B X : Type 0} (q : Querier B X) (i : IsQuerier q) (json : Json B)
    (request : TransactionRequest) (now : ℕ) where
  Inserted-outcome :
      (payload : B) (before after : List (Message B))
      → json.marshal (ledger_entry_for_outbox request) ≡ some payload
      → (r : Reply ℕ)
      → Inserted (message_of (ledger_entry_for_outbox request) now payload) before r after
      → QueuedIf json request now before after
          (outbox_created q (with_id (message_of (ledger_entry_for_outbox request) now payload) r))
  unfolding outbox_created
  Inserted-outcome payload before after marshalled (done n) (row, schema) = record {
    payload = payload;
    marshalled = marshalled;
    number = n;
    row = row;
    schema = schema;
  }
  Inserted-outcome payload before after marshalled fault w = tt

  store_outcome :
      (payload : B) (x : X)
      → json.marshal (ledger_entry_for_outbox request) ≡ some payload
      → let (r, x') =
          store_message q (ok (message_of (ledger_entry_for_outbox request) now payload)) x in
        QueuedIf json request now (i.messages x) (i.messages x') r × (i.accounts x' ≡ i.accounts x)
  unfolding store_message create
  store_outcome payload x marshalled =
      let m = message_of (ledger_entry_for_outbox request) now payload in
      (
        Inserted-outcome payload (i.messages x) _ marshalled _ (i.insert_message_writes m x),
        i.insert_message_keeps m x,
      )

  -- `CreateOutboxEntry` on every reply of the database: success has put one pending message behind the
  -- others, with the entry of the request as its payload, and no two messages are of the same
  -- transaction. The accounts are untouched.
  pub create_outbox_entry_outcome :
      (x : X)
      → let (r, x') = create_outbox_entry q json request now x in
        QueuedIf json request now (i.messages x) (i.messages x') r × (i.accounts x' ≡ i.accounts x)
  unfolding create_outbox_entry new_message
  create_outbox_entry_outcome x =
      elim (Option-cases (json.marshal (ledger_entry_for_outbox request))) [
        | inl e ↦ rw (e, new_message, store_message) (tt, refl)
        | inr (payload, e) ↦ rw (e, new_message) (store_outcome payload x e)
      ]

  -- An insert that is answered is enough.
  pub create_outbox_entry_succeeds :
      (payload : B) (n : ℕ) (x : X)
      → json.marshal (ledger_entry_for_outbox request) ≡ some payload
      → (q.insert_message (message_of (ledger_entry_for_outbox request) now payload) x).0 ≡ done n
      → (create_outbox_entry q json request now x).0 ≡ ok tt
  unfolding create_outbox_entry new_message store_message create outbox_created
  create_outbox_entry_succeeds payload n x marshalled answered =
      rw (marshalled, new_message, store_message) (rw answered refl)
