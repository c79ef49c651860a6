-- ===== src/Processor/Publisher/Delivery.antt =====
-- `PublishToLedger`: the ledger is written before the outbox says so.
use innoscripta_banking_ledg.Base.{ℕ, ◌≡◌, ◌⊎◌, inl, inr, refl, some, none, List}
use innoscripta_banking_ledg.Domain.Shared.{completed, processed, failed_to_publish}
use innoscripta_banking_ledg.Domain.Error.{external, wrapped}
use innoscripta_banking_ledg.Domain.Result.{Result, ok, err}
use innoscripta_banking_ledg.Domain.Ledger.{Entry}
use innoscripta_banking_ledg.Domain.Outbox.{Json, Message}
use innoscripta_banking_ledg.Platform.Querier.{Querier, IsQuerier}
use innoscripta_banking_ledg.Platform.Collection.{Collection, IsCollection}
use innoscripta_banking_ledg.Platform.World.{World}
use innoscripta_banking_ledg.Data.OutboxRepository.{with_status}
use innoscripta_banking_ledg.Data.OutboxRepository.Writes.{
  stamped, Stamped, Stamped-either, update_status_stamps,
}
use innoscripta_banking_ledg.Data.LedgerRepository.Entries.{HasStatus, SameOthers}
use innoscripta_banking_ledg.Processor.Publisher.{
  wrap_error, mark_published, publish_payload, publish_to_ledger,
}
use innoscripta_banking_ledg.Processor.Publisher.Completion.{
  KeepsCompleted, Completes, publish_entry-Completes,
}

module _ {B : Type 0} where
  -- The outbox before and after, by what has been written there in the ledger: a message is marked as
  -- processed only if its transaction is COMPLETED.
  abbrev pub MarkedIf :
      ℕ → ℕ → ℕ → List Entry → List (Message B) → List (Message B) → Result (Unit {0}) → Type 0
  MarkedIf transaction_id id now entries before after (ok _) =
      HasStatus completed transaction_id entries
      × (after ≡ stamped id (with_status processed now) before)
  MarkedIf transaction_id id now entries before after (err _) =
      (after ≡ before)
      ⊎ (HasStatus completed transaction_id entries
          × (after ≡ stamped id (with_status processed now) before))

  MarkedIf-of_Stamped :
      (transaction_id id now : ℕ) (entries : List Entry) (before after : List (Message B))
      → HasStatus completed transaction_id entries
      → (r : Result (Unit {0})) → Stamped id (with_status processed now) before after r
      → MarkedIf transaction_id id now entries before after (wrap_error r)
  MarkedIf-of_Stamped transaction_id id now entries before after has (ok _) s = (has, s)
  MarkedIf-of_Stamped transaction_id id now entries before after has (err _) (inl s) = inl s
  MarkedIf-of_Stamped transaction_id id now entries before after has (err _) (inr s) = inr (has, s)

module _ {B P M : Type 0} (q : Querier B P) (i : IsQuerier q) (c : Collection M)
    (j : IsCollection c) (json : Json B) (message : Message B) (now : ℕ) where
  -- The ledger and the outbox after an attempt to publish an entry.
  abbrev pub Delivers : Entry → World P M → Result (Unit {0}) → World P M → Type 0
  Delivers entry w r w' =
      SameOthers entry.transaction_id (j.entries w.mongo) (j.entries w'.mongo)
      × KeepsCompleted (j.entries w.mongo) (j.entries w'.mongo)
      × MarkedIf entry.transaction_id message.id now (j.entries w'.mongo) (i.messages w.pg)
          (i.messages w'.pg) r
      × (i.accounts w'.pg ≡ i.accounts w.pg)

  mark_published-Delivers :
      (entry : Entry) (w : World P M) (m : M)
      → (r : Result (Unit {0})) → Completes entry.transaction_id (j.entries w.mongo) (j.entries m) r
      → let (r', w') = mark_published q c json message now r (record w { mongo = m }) in
        Delivers entry w r' w'
  unfolding mark_published
  mark_published-Delivers entry w m (err e) (others, keeps) = (others, keeps, inl refl, refl)
  mark_published-Delivers entry w m (ok _) ((has, others), keeps) =
      let (stamps, accounts) = update_status_stamps q i message.id processed now w.pg in
      (
        others,
        keeps,
        MarkedIf-of_Stamped entry.transaction_id message.id now _ _ _ has _ stamps,
        accounts,
      )

  -- If publishing a message succeeds, its transaction is COMPLETED in the ledger and the message is
  -- marked as processed; if it does not, the message is marked so only where the transaction is
  -- COMPLETED. No other transaction is found otherwise than before, none that was COMPLETED ceases
  -- to be, and the accounts are untouched.
  pub publish_to_ledger-Delivers :
      (entry : Entry) (w : World P M)
      → json.unmarshal message.payload ≡ some entry
      → let (r, w') = publish_to_ledger q c json message now w in Delivers entry w r w'
  unfolding publish_to_ledger publish_payload
  publish_to_ledger-Delivers entry w h =
      rw h (mark_published-Delivers entry w _ _ (publish_entry-Completes c j now entry w.mongo))

  -- A payload that cannot be read: an error, the ledger and the accounts untouched, the message
  -- given up, if that can be written.
  pub publish_to_ledger_gives_up :
      (w : World P M)
      → json.unmarshal message.payload ≡ none
      → let (r, w') = publish_to_ledger q c json message now w in
        (r ≡ err (wrapped external))
        × (w'.mongo ≡ w.mongo)
        × (i.accounts w'.pg ≡ i.accounts w.pg)
        × ((i.messages w'.pg ≡ i.messages w.pg)
            ⊎ (i.messages w'.pg
                ≡ stamped message.id (with_status failed_to_publish now) (i.messages w.pg)))
  unfolding publish_to_ledger publish_payload
  publish_to_ledger_gives_up w h = rw h (
      let (stamps, accounts) = update_status_stamps q i message.id failed_to_publish now w.pg in
      (
        refl,
        refl,
        accounts,
        Stamped-either message.id (with_status failed_to_publish now) _ _ _ stamps,
      ))
