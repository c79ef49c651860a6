-- ===== src/Gateway/TransactionHandler/Endpoints.antt =====
-- What `POST /transactions` answers, on every input and on every reply of MongoDB and of Kafka.
use Prim.Native.String.{◌++◌ as append}
use innoscripta_banking_ledg.Base.{
  ℕ, String, str_eq, Bool-cases, ◌≡◌, ◌≢◌, ◌⊎◌, inl, inr, refl, sym, ap, subst, Option, none, some,
  eq_iff, arith,
}
use innoscripta_banking_ledg.Domain.Shared.{
  TransactionType, deposit, withdrawal, TransactionRequest,
}
use innoscripta_banking_ledg.Domain.Result.{Result, ok, err}
use innoscripta_banking_ledg.Domain.Ledger.{Entry}
use innoscripta_banking_ledg.Platform.Reply.{done, fault}
use innoscripta_banking_ledg.Platform.Collection.{Collection, IsCollection}
use innoscripta_banking_ledg.Processor.Validator.{validate}
use innoscripta_banking_ledg.Gateway.TransactionService.{
  create_transaction, MessagePublisher, Channels,
}
use innoscripta_banking_ledg.Gateway.TransactionService.Acceptance.{
  entry_of_key, Published, Answers, create_transaction-Answers,
}
use innoscripta_banking_ledg.Gateway.Dto.{
  Bound, bound, refused, Binding, IsBinding, CreateTransactionRequest, IsTransactionRequest,
  Formats, IsFormats,
}
use innoscripta_banking_ledg.Gateway.Http.{transaction, accepted, HttpResponse}
use innoscripta_banking_ledg.Gateway.Http.Answers.{
  success, bad_request, internal_error, shown_entry, map_ledger_entry_to_response-shown,
}
use innoscripta_banking_ledg.Gateway.TransactionHandler.{
  Fresh, transaction_type, idempotency_key, transaction_request, transaction_created, create_typed,
  create_parsed, create_bound, create,
}

module _ {V M : Type 0} (f : Formats) (texts : IsFormats f) (b : Binding V) (tags : IsBinding b)
    (c : Collection M) (j : IsCollection c) (correlation : String) where
  module _ {T : Type 0} (producer : MessagePublisher T) (fresh : Fresh) where
    -- The request that a body stands for.
    abbrev pub IsTypeOf : String → TransactionType → Type 0
    IsTypeOf text type =
        ((text ≡ "DEPOSIT") × (type ≡ deposit)) ⊎ ((text ≡ "WITHDRAWAL") × (type ≡ withdrawal))

    abbrev pub IsKeyOf : String → String → Type 0
    IsKeyOf given key =
        ((given ≡ "") × (key ≡ f.uuid_string fresh.key)) ⊎ ((given ≢ "") × (key ≡ given))

    abbrev pub IsRequestOf : CreateTransactionRequest → ℕ → TransactionRequest → Type 0
    IsRequestOf r account_id request =
        (request.transaction_id ≡ fresh.id)
        × (request.account_id ≡ account_id)
        × IsTypeOf r.type request.type
        × (request.amount ≡ r.amount)
        × (request.currency ≡ r.currency)
        × IsKeyOf r.idempotency_key request.idempotency_key
        × (request.correlation_id ≡ correlation)
        × (request.timestamp ≡ fresh.now)

    -- What a request that has been made of the body comes to.
    abbrev pub Served : TransactionRequest → Channels M T → Channels M T → HttpResponse → Type 0
    Served request w w' answer =
        ((answer ≡ success correlation 202 (accepted request.transaction_id "PENDING"))
          × (entry_of_key request.idempotency_key (j.entries w.mongo) ≡ none)
          × Published c j producer request (done tt) w w')
        ⊎ (((e : Entry) × (answer ≡ success correlation 200 (transaction (shown_entry f e)))
              × (entry_of_key request.idempotency_key (j.entries w.mongo) ≡ some e)
              × (w'.topic ≡ w.topic))
            ⊎ ((answer ≡ internal_error correlation)
                × ((w'.topic ≡ w.topic)
                    ⊎ ((entry_of_key request.idempotency_key (j.entries w.mongo) ≡ none)
                        × Published c j producer request fault w w'))))

    abbrev pub CreateAnswers :
        Bound CreateTransactionRequest → Channels M T → Channels M T → HttpResponse → Type 0
    CreateAnswers (refused text) w w' answer =
        (answer ≡ bad_request correlation (append "Invalid request body: " text))
        × (w'.topic ≡ w.topic)
    CreateAnswers (bound r) w w' answer =
        ((f.parse_uuid r.account_id ≡ none)
          × (answer ≡ bad_request correlation "Invalid account ID")
          × (w'.topic ≡ w.topic))
        ⊎ ((account_id : ℕ) × (request : TransactionRequest) × (f.parse_uuid r.account_id
              ≡ some account_id)
            × IsRequestOf r account_id request
            × (validate request ≡ ok tt)
            × Served request w w' answer)

    known_type :
        (r : CreateTransactionRequest) (account_id : ℕ)
        → IsTransactionRequest r
        → (type : TransactionType) × (transaction_type r.type ≡ some type)
          × IsTypeOf r.type type
          × (validate (transaction_request f correlation fresh r account_id type) ≡ ok tt)
    unfolding validate
    known_type r account_id (_, inl e, positive, _) = (deposit, rw e, inl (e, refl), ground arith)
    known_type r account_id (_, inr e, positive, _) =
        (withdrawal, rw e, inr (e, refl), ground arith)

    key_of : (given : String) → IsKeyOf given (idempotency_key f correlation fresh.key given)
    key_of given = elim (Bool-cases (str_eq given "")) [
      | inl empty ↦ inl (ground (arith, eq_iff given ""), ground arith)
      | inr other ↦ inr (ground (arith, eq_iff given ""), ground arith)
    ]

    has_key :
        (r : CreateTransactionRequest) (account_id : ℕ) (type : TransactionType)
        → (transaction_request f correlation fresh r account_id type).idempotency_key ≢ ""
    has_key r account_id type =
        ground (arith, eq_iff r.idempotency_key "", texts.uuid_text fresh.key)

    created-Served :
        (request : TransactionRequest) (w w' : Channels M T) (r : Result (ℕ × Option Entry))
        → request.idempotency_key ≢ ""
        → Answers c j producer request w w' r
        → Served request w w' (transaction_created f correlation r)
    unfolding transaction_created
    created-Served request w w' (ok (id, some e)) key (topic, found, _) = inr (
        inl (
          e,
          ap (λ t. success correlation 200 (transaction t))
              (map_ledger_entry_to_response-shown f e),
          found,
          topic,
        ))
    created-Served request w w' (ok (id, none)) key (same, inl empty, published) =
        absurd (key empty)
    created-Served request w w' (ok (id, none)) key (same, inr new, published) =
        inl (rw same refl, new, published)
    created-Served request w w' (err e) key (_, inl topic) = inr (inr (refl, inl topic))
    created-Served request w w' (err e) key (_, inr (inl empty, _)) = absurd (key empty)
    created-Served request w w' (err e) key (_, inr (inr new, published)) =
        inr (inr (refl, inr (new, published)))

    typed-Answers :
        (r : CreateTransactionRequest) (account_id : ℕ) (type : TransactionType)
        → f.parse_uuid r.account_id ≡ some account_id
        → IsTypeOf r.type type
        → validate (transaction_request f correlation fresh r account_id type) ≡ ok tt
        → (w : Channels M T)
        → let (answer, w') =
            create_typed f b c correlation producer fresh r account_id (some type) w in
          CreateAnswers (bound r) w w' answer × (j.entries w'.mongo ≡ j.entries w.mongo)
    unfolding create_typed
    typed-Answers r account_id type e known valid w =
        let request = transaction_request f correlation fresh r account_id type in
        let (answers, same) = create_transaction-Answers c j producer request w in
        let served =
          created-Served request w (create_transaction c producer request w).1 _
            (has_key r account_id type) answers in
        (
          inr (
            account_id,
            request,
            e,
            (refl, refl, known, refl, refl, key_of r.idempotency_key, refl, refl),
            valid,
            served,
          ),
          same,
        )

    parsed-Answers :
        (r : CreateTransactionRequest)
        → IsTransactionRequest r
        → (account_id : Option ℕ) → f.parse_uuid r.account_id ≡ account_id
        → (w : Channels M T)
        → let (answer, w') = create_parsed f b c correlation producer fresh r account_id w in
          CreateAnswers (bound r) w w' answer × (j.entries w'.mongo ≡ j.entries w.mongo)
    unfolding create_parsed
    parsed-Answers r is none e w = (inl (e, refl, refl), refl)
    parsed-Answers r is (some account_id) e w =
        let (type, known, is_type, valid) = known_type r account_id is in
        subst
          (λ t.
            let (answer, w') = create_typed f b c correlation producer fresh r account_id t w in
            CreateAnswers (bound r) w w' answer × (j.entries w'.mongo ≡ j.entries w.mongo))
          (sym known) (typed-Answers r account_id type e is_type valid w)

    bound-Answers :
        (r : Bound CreateTransactionRequest)
        → ((r' : CreateTransactionRequest) → r ≡ bound r' → IsTransactionRequest r')
        → (w : Channels M T)
        → let (answer, w') = create_bound f b c correlation producer fresh r w in
          CreateAnswers r w w' answer × (j.entries w'.mongo ≡ j.entries w.mongo)
    unfolding create_bound
    bound-Answers (refused text) is w = ((refl, refl), refl)
    bound-Answers (bound r) is w = parsed-Answers r (is r refl) (f.parse_uuid r.account_id) refl w

    -- `POST /transactions` on every body and on every reply of MongoDB and of Kafka: a body that does
    -- not bind, or an account ID that is no UUID, is a bad request, and nothing is published. Any
    -- other makes a request of the body and of fresh values, which passes the validator of the
    -- processor: the answer is 202 with its transaction ID if no entry of the ledger has its idempotency key and the producer took it, once;
    -- 200 with the entry under that key, nothing being published; or 500. The ledger is untouched.
    pub create-Answers :
        (body : V) (w : Channels M T)
        → let (answer, w') = create f b c correlation producer fresh body w in
          CreateAnswers (b.bind_transaction body) w w' answer
          × (j.entries w'.mongo ≡ j.entries w.mongo)
    unfolding create
    create-Answers body w = bound-Answers (b.bind_transaction body) (tags.transaction_tags body) w
