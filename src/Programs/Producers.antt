-- ===== src/Programs/Producers.antt =====
-- What the producers of a program that has started can rely on.
use innoscripta_banking_ledg.Base.{
  ◌≡◌, ◌≢◌, refl, true, Option, none, some, str_eq, Bool-cases, inl, inr, eq_iff, arith,
}
use innoscripta_banking_ledg.Domain.Result.{Result, ok, err}
use innoscripta_banking_ledg.Config.Kafka.{KafkaConfig}
use innoscripta_banking_ledg.Messaging.Topics.{KafkaConn, KafkaDialer}
use innoscripta_banking_ledg.Messaging.Topics.Existence.{IsKafkaConn, IsDialer, ensure_topic_makes}
use innoscripta_banking_ledg.Messaging.Requests.{
  TransactionReqMessageProducer, request_producer, new_transaction_req_message_producer,
}
use innoscripta_banking_ledg.Messaging.DeadLetters.{DlqProducer, dlq_producer, new_dlq_producer}

module _ {K : Type 0} (dialer : KafkaDialer K) (conn : KafkaConn K) (k : IsKafkaConn conn)
    (d : IsDialer dialer k) (cfg : KafkaConfig) where
  -- A producer of the dead letter queue, and its topic.
  abbrev pub Dead : Result (Option DlqProducer) → K → Type 0
  Dead (ok none) kafka = ⊥
  Dead (ok (some p)) kafka = k.has_topic cfg.dlq_topic kafka ≡ true
  Dead (err _) kafka = Unit

  dlq_producer-Dead :
      (r : Result (Unit {0})) (kafka : K)
      → (r ≡ ok tt → k.has_topic cfg.dlq_topic kafka ≡ true)
      → Dead (dlq_producer cfg r) kafka
  dlq_producer-Dead (ok _) kafka there = there refl
  dlq_producer-Dead (err _) kafka there = tt

  pub new_dlq_producer-Dead :
      (kafka : K)
      → cfg.dlq_topic ≢ ""
      → let (r, kafka') = new_dlq_producer dialer conn cfg kafka in Dead r kafka'
  unfolding new_dlq_producer
  new_dlq_producer-Dead kafka named = elim (Bool-cases (str_eq cfg.dlq_topic "")) [
    | inl empty ↦ absurd (ground (arith, eq_iff cfg.dlq_topic "", named))
    | inr given ↦
        rw given
          (dlq_producer-Dead _ _ (ensure_topic_makes dialer conn k d cfg cfg.dlq_topic kafka))
  ]

  -- A producer of requests has its topic.
  abbrev pub Requesting : Result TransactionReqMessageProducer → K → Type 0
  Requesting (ok p) kafka =
      (k.has_topic cfg.transaction_topic kafka ≡ true) × (p.topic ≡ cfg.transaction_topic)
  Requesting (err _) kafka = Unit

  request_producer-Requesting :
      (r : Result (Unit {0})) (kafka : K)
      → (r ≡ ok tt → k.has_topic cfg.transaction_topic kafka ≡ true)
      → Requesting (request_producer cfg r) kafka
  request_producer-Requesting (ok _) kafka there = (there refl, refl)
  request_producer-Requesting (err _) kafka there = tt

  pub new_producer-Requesting :
      (kafka : K)
      → let (r, kafka') = new_transaction_req_message_producer dialer conn cfg kafka in
        Requesting r kafka'
  unfolding new_transaction_req_message_producer
  new_producer-Requesting kafka = elim (Bool-cases (str_eq cfg.transaction_topic "")) [
    | inl empty ↦ rw empty tt
    | inr given ↦ rw given (
        request_producer-Requesting _ _
          (ensure_topic_makes dialer conn k d cfg cfg.transaction_topic kafka))
  ]
