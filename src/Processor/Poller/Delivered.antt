-- ===== src/Processor/Poller/Delivered.antt =====
-- The invariant between the outbox and the ledger, and what an update of the outbox does to it.
use innoscripta_banking_ledg.Base.{
  ◌∙◌, ℕ, ◌≡◌, ◌⊎◌, inl, inr, sym, ◌∙◌, ap, subst, Bool-cases, some, List, [], ◌∷◌, ◌==◌, All,
  All-mono, arith,
}
use innoscripta_banking_ledg.Domain.Shared.{completed, processed}
use innoscripta_banking_ledg.Domain.Ledger.{Entry}
use innoscripta_banking_ledg.Domain.Outbox.{Json, Message}
use innoscripta_banking_ledg.Domain.Outbox.Content.{Fits, contents}
use innoscripta_banking_ledg.Platform.Querier.{Querier, IsQuerier}
use innoscripta_banking_ledg.Platform.Collection.{Collection, IsCollection}
use innoscripta_banking_ledg.Platform.World.{World}
use innoscripta_banking_ledg.Data.OutboxRepository.{with_status}
use innoscripta_banking_ledg.Data.OutboxRepository.Writes.{stamped}
use innoscripta_banking_ledg.Data.LedgerRepository.Entries.{HasStatus}
use innoscripta_banking_ledg.Processor.Publisher.Completion.{KeepsCompleted}

module _ {B : Type 0} (json : Json B) where
  -- If a message is marked as processed, the transaction of its entry is COMPLETED.
  abbrev pub IsDelivered : List Entry → Message B → Type 0
  IsDelivered entries row =
      row.status ≡ processed
      → (e : Entry) → json.unmarshal row.payload ≡ some e
      → HasStatus completed e.transaction_id entries

  -- Every message that is marked as processed has been delivered.
  abbrev pub Delivered : List Entry → List (Message B) → Type 0
  Delivered entries queue = All (IsDelivered entries) queue

  pub Delivered-mono :
      (before after : List Entry) (queue : List (Message B))
      → KeepsCompleted before after
      → Delivered before queue
      → Delivered after queue
  Delivered-mono before after queue keeps d =
      All-mono (IsDelivered before) (IsDelivered after)
        (λ row h s e u. keeps e.transaction_id (h s e u)) queue d

  -- An update that marks nothing as processed.
  pub Delivered-stamped :
      (entries : List Entry) (id : ℕ) (f : Message B → Message B)
      → ((row : Message B) → (f row).payload ≡ row.payload)
      → ((row : Message B) → (f row).status ≡ processed → row.status ≡ processed)
      → (queue : List (Message B)) → Delivered entries queue
      → Delivered entries (stamped id f queue)
  Delivered-stamped entries id f payload status [] d = tt
  Delivered-stamped entries id f payload status (row ∷ queue) (h, d) =
      elim (Bool-cases (row.id == id)) [
        | inl here ↦ rw here (
          λ s e u. h (status row s) e (ap json.unmarshal (sym (payload row)) ∙ u),
          Delivered-stamped entries id f payload status queue d,
        )
        | inr there ↦ rw there (h, Delivered-stamped entries id f payload status queue d)
      ]

  same_entry :
      (x y : B) (a b : Entry)
      → y ≡ x
      → json.unmarshal x ≡ some a
      → json.unmarshal y ≡ some b
      → a ≡ b
  same_entry x y a b e u v = ground (arith, ap json.unmarshal e)

  -- The mark on a message whose transaction is COMPLETED.
  pub Delivered-marked :
      (entries : List Entry) (message : Message B) (now : ℕ) (entry : Entry)
      → json.unmarshal message.payload ≡ some entry
      → HasStatus completed entry.transaction_id entries
      → (queue : List (Message B)) → Fits message queue
      → Delivered entries queue
      → Delivered entries (stamped message.id (with_status processed now) queue)
  Delivered-marked entries message now entry u has [] fits d = tt
  Delivered-marked entries message now entry u has (row ∷ queue) (fit, fits) (h, d) =
      elim (Bool-cases (row.id == message.id)) [
        | inl here ↦ rw here (
          λ s e v.
              subst (λ (x : Entry). HasStatus completed x.transaction_id entries)
                (same_entry message.payload row.payload entry e (fit here) u v) has,
          Delivered-marked entries message now entry u has queue fits d,
        )
        | inr there ↦ rw there (h, Delivered-marked entries message now entry u has queue fits d)
      ]

  -- Either outcome of an update that may not have come through.
  pub Delivered-either :
      (entries : List Entry) (before intended after : List (Message B))
      → (after ≡ before) ⊎ (after ≡ intended)
      → Delivered entries before
      → Delivered entries intended
      → Delivered entries after
  Delivered-either entries before intended after (inl e) d d' = subst (Delivered entries) (sym e) d
  Delivered-either entries before intended after (inr e) d d' = subst (Delivered entries) (sym e) d'

module _ {B P M : Type 0} {q : Querier B P} {c : Collection M} (i : IsQuerier q)
    (j : IsCollection c) where
  -- The accounts are untouched, the messages have kept their contents, and what was COMPLETED is.
  abbrev pub Polled : World P M → World P M → Type 0
  Polled w w' =
      (i.accounts w'.pg ≡ i.accounts w.pg)
      × (contents (i.messages w'.pg) ≡ contents (i.messages w.pg))
      × KeepsCompleted (j.entries w.mongo) (j.entries w'.mongo)

  pub Polled-trans : (w w' w'' : World P M) → Polled w w' → Polled w' w'' → Polled w w''
  Polled-trans w w' w'' (a, m, k) (a', m', k') = (a' ∙ a, m' ∙ m, λ t h. k' t (k t h))

  abbrev pub AllDelivered : Json B → World P M → Type 0
  AllDelivered json w = Delivered json (j.entries w.mongo) (i.messages w.pg)
