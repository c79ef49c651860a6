-- ===== src/Gateway/TransactionService/Acceptance.antt =====
-- What the transaction service answers, on every reply of MongoDB and of Kafka.
use innoscripta_banking_ledg.Base.{
  ℕ, String, ◌≡◌, ◌⊎◌, inl, inr, refl, sym, ◌∙◌, ap, Option, none, some, List, find?, str_eq,
  Bool-cases, eq_iff, arith,
}
use innoscripta_banking_ledg.Domain.Shared.{TransactionRequest}
use innoscripta_banking_ledg.Domain.Error.{external, wrapped}
use innoscripta_banking_ledg.Domain.Result.{Result, ok, err}
use innoscripta_banking_ledg.Domain.Ledger.{Entry}
use innoscripta_banking_ledg.Platform.Reply.{Reply, done, fault, Found}
use innoscripta_banking_ledg.Platform.Collection.{Collection, IsCollection}
use innoscripta_banking_ledg.Data.LedgerRepository.{get_by_idempotency_key, entry_or_nil}
use innoscripta_banking_ledg.Data.LedgerRepository.Writes.{Read, get_by_transaction_id_reads}
use innoscripta_banking_ledg.Data.LedgerRepository.Entries.{entry_of}
use innoscripta_banking_ledg.Gateway.TransactionService.{
  MessagePublisher, Channels, accepted, publish_request, after_key_lookup, create_transaction,
  entry_or_none, as_entry_not_found, get_transaction_by_id,
}

-- The first entry under an idempotency key.
abbrev pub entry_of_key : String → List Entry → Option Entry
entry_of_key key entries = find? (λ e. str_eq e.idempotency_key key) entries

module _ {M T : Type 0} (c : Collection M) (j : IsCollection c) (producer : MessagePublisher T)
    (request : TransactionRequest) where
  -- The request has been handed to the producer, once, under its transaction ID; and its reply.
  abbrev pub Published : Reply (Unit {0}) → Channels M T → Channels M T → Type 0
  Published r w w' =
      ((producer.publish request.transaction_id request w.topic).0 ≡ r)
      × (w'.topic ≡ (producer.publish request.transaction_id request w.topic).1)

  -- No entry of the ledger has the key of the request.
  abbrev pub IsNew : List Entry → Type 0
  IsNew entries =
      (request.idempotency_key ≡ "") ⊎ (entry_of_key request.idempotency_key entries ≡ none)

  abbrev pub Answers : Channels M T → Channels M T → Result (ℕ × Option Entry) → Type 0
  Answers w w' (ok (id, some e)) =
      (w'.topic ≡ w.topic)
      × (entry_of_key request.idempotency_key (j.entries w.mongo) ≡ some e)
      × (id ≡ e.transaction_id)
  Answers w w' (ok (id, none)) =
      (id ≡ request.transaction_id) × IsNew (j.entries w.mongo) × Published (done tt) w w'
  Answers w w' (err e) =
      (e ≡ wrapped external)
      × ((w'.topic ≡ w.topic) ⊎ (IsNew (j.entries w.mongo) × Published fault w w'))

  abbrev after_publish : Channels M T → M → Channels M T
  after_publish w m = record {
    mongo = m;
    topic = (producer.publish request.transaction_id request w.topic).1;
  }

  publish-Answers :
      (w w' : Channels M T)
      → IsNew (j.entries w.mongo)
      → (r : Reply (Unit {0})) → Published r w w'
      → Answers w w' (accepted c producer request.transaction_id r)
  publish-Answers w w' new (done _) p = (refl, new, p)
  publish-Answers w w' new fault p = (refl, inr (new, p))

  -- What follows on a reply to the look-up of a key that is not empty.
  lookup-Answers :
      (w : Channels M T) (m : M)
      → (r : Reply (Option Entry))
      → Found (λ e. str_eq e.idempotency_key request.idempotency_key) (j.entries w.mongo) r
      → let (r', w') =
          after_key_lookup c producer request (entry_or_nil r) (record w { mongo = m }) in
        Answers w w' r' × (w'.mongo ≡ m)
  unfolding after_key_lookup publish_request
  lookup-Answers w m fault _ = ((refl, inl refl), refl)
  lookup-Answers w m (done (some e)) found = ((refl, sym found, refl), refl)
  lookup-Answers w m (done none) found = (
    publish-Answers w (after_publish w m) (inr (sym found))
        (producer.publish request.transaction_id request w.topic).0 (refl, refl),
    refl,
  )

  -- `CreateTransaction` on every reply of MongoDB and of Kafka: where the ledger has an entry under
  -- the idempotency key, the answer is that entry, and nothing is published; otherwise the request
  -- is published once, under its transaction ID, which is the answer if the producer takes it. An error is
  -- a fault of one of the two. The ledger is untouched.
  pub create_transaction-Answers :
      (w : Channels M T)
      → let (r, w') = create_transaction c producer request w in
        Answers w w' r × (j.entries w'.mongo ≡ j.entries w.mongo)
  unfolding create_transaction publish_request get_by_idempotency_key
  create_transaction-Answers w = elim (Bool-cases (str_eq request.idempotency_key "")) [
    | inl empty ↦ rw empty (
      publish-Answers w (after_publish w w.mongo)
          (inl (ground (arith, eq_iff request.idempotency_key "")))
          (producer.publish request.transaction_id request w.topic).0 (refl, refl),
      refl,
    )
    | inr key ↦ rw key (
        let p = λ (e : Entry). str_eq e.idempotency_key request.idempotency_key in
        let (answers, same) =
          lookup-Answers w (c.find_one p w.mongo).1 _ (j.find_one_finds p w.mongo) in
        (answers, ap j.entries same ∙ j.find_one_keeps p w.mongo))
  ]

module _ {M : Type 0} (c : Collection M) (j : IsCollection c) where
  -- `GetTransactionByID` on every reply of MongoDB: the entry of the transaction, or nothing if there
  -- is none, or the fault; the ledger is untouched.
  pub get_transaction_by_id_finds :
      (id : ℕ) (m : M)
      → let (r, m') = get_transaction_by_id c id m in
        ((r ≡ ok (entry_of id (j.entries m))) ⊎ (r ≡ err (wrapped external)))
        × (j.entries m' ≡ j.entries m)
  unfolding get_transaction_by_id entry_or_none as_entry_not_found
  get_transaction_by_id_finds id m =
      let (read, same) = get_by_transaction_id_reads c j id m in (read_found id _ _ read, same)
    where
      read_found :
          (id : ℕ) (entries : List Entry) (r : Result Entry)
          → Read id entries r
          → (entry_or_none r ≡ ok (entry_of id entries))
            ⊎ (entry_or_none r ≡ err (wrapped external))
      read_found id entries (ok e) found = inl (ap ok (sym found))
      read_found id entries (err e) (inl (c, missing)) = inl (rw (c, missing) refl)
      read_found id entries (err e) (inr c) = inr (rw c refl)
