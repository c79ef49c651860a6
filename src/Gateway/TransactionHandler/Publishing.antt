-- ===== src/Gateway/TransactionHandler/Publishing.antt =====
-- What `POST /transactions` puts into the topic.
use innoscripta_banking_ledg.Base.{IsInt64, String, ◌≡◌, ◌⊎◌, inl, inr, refl, sym, subst}
use innoscripta_banking_ledg.Domain.Shared.{TransactionRequest}
use innoscripta_banking_ledg.Platform.Collection.{Collection, IsCollection}
use innoscripta_banking_ledg.Processor.System.Delivery.{ValidRequest}
use innoscripta_banking_ledg.Gateway.TransactionService.{MessagePublisher, Channels}
use innoscripta_banking_ledg.Gateway.Dto.{
  Bound, bound, refused, Binding, IsBinding, CreateTransactionRequest, Formats, IsFormats,
}
use innoscripta_banking_ledg.Gateway.Http.{HttpResponse}
use innoscripta_banking_ledg.Gateway.TransactionHandler.{Fresh, create}
use innoscripta_banking_ledg.Gateway.TransactionHandler.Endpoints.{
  Served, CreateAnswers, create-Answers,
}

-- Nothing, or one valid request under its transaction ID.
abbrev pub Publishes : {T : Type 0} → MessagePublisher T → T → T → Type 0
Publishes producer topic topic' =
    (topic' ≡ topic)
    ⊎ ((request : TransactionRequest) × ValidRequest request
        × (topic' ≡ (producer.publish request.transaction_id request topic).1))

module _ {V M T : Type 0} (f : Formats) (texts : IsFormats f) (b : Binding V) (tags : IsBinding b)
    (c : Collection M) (j : IsCollection c) (correlation : String) (producer : MessagePublisher T)
    (fresh : Fresh) where
  Served-Publishes :
      (request : TransactionRequest) (w w' : Channels M T) (answer : HttpResponse)
      → ValidRequest request
      → Served f texts b tags c j correlation producer fresh request w w' answer
      → Publishes producer w.topic w'.topic
  Served-Publishes request w w' answer valid (inl (_, _, published)) =
      inr (request, valid, published.1)
  Served-Publishes request w w' answer valid (inr (inl (_, _, _, same))) = inl same
  Served-Publishes request w w' answer valid (inr (inr (_, inl same))) = inl same
  Served-Publishes request w w' answer valid (inr (inr (_, inr (_, published)))) =
      inr (request, valid, published.1)

  answers-Publishes :
      (r : Bound CreateTransactionRequest)
      → ((r' : CreateTransactionRequest) → r ≡ bound r' → IsInt64 r'.amount)
      → (w w' : Channels M T) (answer : HttpResponse)
      → CreateAnswers f texts b tags c j correlation producer fresh r w w' answer
      → Publishes producer w.topic w'.topic
  answers-Publishes (refused text) range w w' answer (_, same) = inl same
  answers-Publishes (bound r) range w w' answer (inl (_, _, same)) = inl same
  answers-Publishes (bound r) range w w' answer
        (inr (_, _, _, (_, _, _, amount, _, _, _, _), valid, served)) =
      Served-Publishes _ w w' answer (subst IsInt64 (sym amount) (range r refl), valid) served

  -- Whatever the body, the topic is left alone or takes one valid request.
  pub create-Publishes :
      (body : V) (w : Channels M T)
      → Publishes producer w.topic (create f b c correlation producer fresh body w).1.topic
  create-Publishes body w =
      answers-Publishes (b.bind_transaction body) (λ r e. (tags.transaction_tags body r e).3) w _ _
        (create-Answers f texts b tags c j correlation producer fresh body w).0
