-- ===== src/Messaging/Topics/Existence.antt =====
-- After `createKafkaTopicIfNotExists` has succeeded, there is the topic.
use innoscripta_banking_ledg.Base.{
  ℕ, zero, suc, ◌≤◌, ℤ, String, ◌≡◌, ◌≢◌, ◌⊎◌, inl, inr, refl, sym, ◌∙◌, Bool, true, false,
  Bool-cases, ◌==◌, arith,
}
use innoscripta_banking_ledg.Domain.Error.{Error, external, wrapped}
use innoscripta_banking_ledg.Domain.Result.{Result, ok, err}
use innoscripta_banking_ledg.Config.Kafka.{KafkaConfig}
use innoscripta_banking_ledg.Platform.Reply.{Reply, done, fault}
use innoscripta_banking_ledg.Messaging.Topics.{
  Partitions, TopicConfig, KafkaConn, KafkaDialer, ensured, after_dial, ensure_topic, topic_config,
  read_attempts, creation, create_if_missing, create_kafka_topic_if_not_exists,
}

-- A creation that is done has made the topic.
abbrev pub Created : Reply (Unit {0}) → Bool → Type 0
Created (done _) there = there ≡ true
Created fault there = Unit

-- What Kafka documents: partitions are those of a topic that is there, and no topic goes away.
pub record IsKafkaConn {K : Type 0} (conn : KafkaConn K) : Type 0 where
  pub has_topic : String → K → Bool
  pub read_shows :
      (topic : String) (k : K)
      → 1 ≤ (conn.read_partitions topic k).0.number
      → has_topic topic (conn.read_partitions topic k).1 ≡ true
  pub read_keeps :
      (topic other : String) (k : K)
      → has_topic other k ≡ true
      → has_topic other (conn.read_partitions topic k).1 ≡ true
  pub create_makes :
      (config : TopicConfig) (k : K)
      → Created
          (conn.create_topics config k).0
          (has_topic config.topic (conn.create_topics config k).1)
  pub create_keeps :
      (config : TopicConfig) (other : String) (k : K)
      → has_topic other k ≡ true
      → has_topic other (conn.create_topics config k).1 ≡ true

ok_ne_err : {A : Type 0} (a : A) (e : Error) → ok a ≢ err e
ok_ne_err a e = λ h. cc

-- Closing the connection leaves the topics as they are.
pub record IsDialer {K : Type 0} (dialer : KafkaDialer K) {conn : KafkaConn K}
    (i : IsKafkaConn conn) : Type 0 where
  pub close_keeps :
      (other : String) (k : K) → i.has_topic other (dialer.close k) ≡ i.has_topic other k

module _ {K : Type 0} (conn : KafkaConn K) (i : IsKafkaConn conn) (topic : String) where
  attempts_show :
      (n : ℕ) (last : Partitions) (k : K)
      → (1 ≤ last.number → i.has_topic topic k ≡ true)
      → let (found, k') = read_attempts conn topic n last k in
        1 ≤ found.number → i.has_topic topic k' ≡ true
  unfolding read_attempts
  attempts_show zero last k h = h
  attempts_show (suc n) last k h = elim (Bool-cases (conn.read_partitions topic k).0.failed) [
    | inl failed ↦
        rw (failed, read_attempts)
          (attempts_show n (conn.read_partitions topic k).0 (conn.read_partitions topic k).1
            (i.read_shows topic k))
    | inr read ↦ rw (read, read_attempts) (i.read_shows topic k)
  ]

  attempts_keep :
      (other : String) (n : ℕ) (last : Partitions) (k : K)
      → i.has_topic other k ≡ true
      → i.has_topic other (read_attempts conn topic n last k).1 ≡ true
  unfolding read_attempts
  attempts_keep other zero last k h = h
  attempts_keep other (suc n) last k h =
      let kept = i.read_keeps topic other k h in
      elim (Bool-cases (conn.read_partitions topic k).0.failed) [
        | inl failed ↦
            rw (failed, read_attempts)
              (attempts_keep other n (conn.read_partitions topic k).0
                (conn.read_partitions topic k).1 kept)
        | inr read ↦ rw (read, read_attempts) kept
      ]

  -- Success means that the topic is there; an error, that Kafka has refused to create it.
  abbrev pub Ensured : Result (Unit {0}) → K → Type 0
  Ensured (ok _) k = i.has_topic topic k ≡ true
  Ensured (err e) k = e ≡ wrapped external

  creation-Ensured :
      (r : Reply (Unit {0})) (k : K)
      → Created r (i.has_topic topic k)
      → Ensured (creation conn topic r) k
  creation-Ensured (done _) k h = h
  creation-Ensured fault k h = refl

  create_if_missing-Ensured :
      (num_partitions replication_factor : ℤ) (found : Partitions) (k : K)
      → (1 ≤ found.number → i.has_topic topic k ≡ true)
      → let (r, k') = create_if_missing conn topic num_partitions replication_factor found k in
        Ensured r k' × ((other : String) → i.has_topic other k ≡ true → i.has_topic other k' ≡ true)
  unfolding create_if_missing
  create_if_missing-Ensured num_partitions replication_factor found k shown =
      let config = topic_config topic num_partitions replication_factor in
      elim (Bool-cases (found.number == 0)) [
        | inl missing ↦ rw missing (
          creation-Ensured _ _ (i.create_makes config k),
          λ other h. i.create_keeps config other k h,
        )
        | inr there ↦ rw there (shown (ground arith), λ other h. h)
      ]

  -- `createKafkaTopicIfNotExists` on every reply of Kafka: success means that the topic is there, an
  -- error that it could not be created. No topic that was there is missing afterwards.
  pub create_kafka_topic-Ensured :
      (num_partitions replication_factor : ℤ) (k : K)
      → let (r, k') =
          create_kafka_topic_if_not_exists conn topic num_partitions replication_factor k in
        Ensured r k'
        × ((other : String) → (i.has_topic other k ≡ false) ⊎ (i.has_topic other k' ≡ true))
  unfolding create_kafka_topic_if_not_exists
  create_kafka_topic-Ensured num_partitions replication_factor k =
      let last : Partitions = record { number = 0; failed = false } in
      let (ensured, kept) =
        create_if_missing-Ensured num_partitions replication_factor
          (read_attempts conn topic 5 last k).0 (read_attempts conn topic 5 last k).1
          (attempts_show 5 last k (λ h. absurd (omega arith))) in
      (
        ensured,
        λ other. elim (Bool-cases (i.has_topic other k)) [
          | inl there ↦ inr (kept other (attempts_keep other 5 last k there))
          | inr missing ↦ inl missing
        ],
      )

module _ {K : Type 0} (dialer : KafkaDialer K) (conn : KafkaConn K) (i : IsKafkaConn conn)
    (d : IsDialer dialer i) (config : KafkaConfig) (topic : String) where
  ensured-Ensured :
      (r : Result (Unit {0})) (k : K)
      → Ensured conn i topic r k
      → (r' : Result (Unit {0})) → r' ≡ ensured r
      → r' ≡ ok tt
      → i.has_topic topic k ≡ true
  ensured-Ensured (ok _) k h r' e e' = h
  ensured-Ensured (err e) k h r' is is' = absurd (ok_ne_err tt (wrapped e) (sym is' ∙ is))

  dialed_topic :
      (r : Reply (Unit {0})) (k : K)
      → let (r', k') = after_dial dialer conn config topic r k in
        r' ≡ ok tt → i.has_topic topic k' ≡ true
  unfolding after_dial
  dialed_topic fault k e = absurd (ok_ne_err tt (wrapped external) (sym e))
  dialed_topic (done _) k e =
      let made =
        create_kafka_topic_if_not_exists conn topic config.num_partitions config.replication_factor
          k in
      d.close_keeps topic made.1
      ∙ ensured-Ensured made.0 made.1
          (create_kafka_topic-Ensured conn i topic config.num_partitions config.replication_factor
            k).0
          _ refl e

  -- A producer that is made has its topic.
  pub ensure_topic_makes :
      (k : K)
      → let (r, k') = ensure_topic dialer conn config topic k in
        r ≡ ok tt → i.has_topic topic k' ≡ true
  unfolding ensure_topic
  ensure_topic_makes k =
      dialed_topic (dialer.dial config.brokers k).0 (dialer.dial config.brokers k).1
