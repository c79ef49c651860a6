-- ===== src/Messaging/DeadLetters/Lettering.antt =====
-- What a producer of the dead letter queue does, from its making on.
use innoscripta_banking_ledg.Base.{
  ℕ, String, ◌≡◌, ◌⊎◌, inl, inr, refl, true, Option, none, some, List, [], ◌∷◌, ◌++◌,
}
use innoscripta_banking_ledg.Domain.Result.{Result, ok, err}
use innoscripta_banking_ledg.Config.Kafka.{KafkaConfig}
use innoscripta_banking_ledg.Platform.Reply.{Reply, done, fault}
use innoscripta_banking_ledg.Messaging.{WireMessage, KafkaWriter, WriterSettings}
use innoscripta_banking_ledg.Messaging.Topics.{KafkaConn, KafkaDialer}
use innoscripta_banking_ledg.Messaging.Topics.Existence.{IsKafkaConn, IsDialer}
use innoscripta_banking_ledg.Messaging.DeadLetters.{
  DlqProducer, DlqJson, as_text, IsDlqJson, letter_written, dlq_message, write_letter,
  publish_to_dlq,
}

-- A write that waits for all replicas.
abbrev pub Stored :
    {V : Type 0}
    → WireMessage V
    → Reply (Unit {0})
    → List (WireMessage V)
    → List (WireMessage V)
    → Type 0
Stored m (done _) before after = after ≡ before ++ m ∷ []
Stored m fault before after = (after ≡ before) ⊎ (after ≡ before ++ m ∷ [])

pub record IsSyncWriter {V W : Type 0} (writer : KafkaWriter V W) : Type 0 where
  pub messages : W → List (WireMessage V)
  pub write_stores :
      (m : WireMessage V) (w : W)
      → Stored m (writer.write_messages m w).0 (messages w) (messages (writer.write_messages m w).1)

module _ {V W : Type 0} (json : DlqJson V) (writer : KafkaWriter V W) (k : IsSyncWriter writer)
    (laws : IsDlqJson json) where
  -- The queue has got a message with this key and reason, from which the payload can be read,
  -- what is no UTF-8 of the key and the value being replaced.
  abbrev pub Lettered : V → V → String → ℕ → W → W → Type 0
  Lettered key value reason now w w' =
      (bytes : V) × (k.messages w' ≡ k.messages w ++ dlq_message json writer key bytes reason ∷ [])
      × (json.unmarshal bytes
          ≡ some (record {
            original_key = as_text laws.is_utf8 laws.replaced key;
            original_value = as_text laws.is_utf8 laws.replaced value;
            dlq_reason = reason;
            timestamp = now;
          }))

  -- No panic; no error only with a dead letter; after an error the queue may have got it as well.
  abbrev pub Answered : V → V → String → ℕ → W → Option (Result (Unit {0}) × W) → Type 0
  Answered key value reason now w none = ⊥
  Answered key value reason now w (some (ok _, w')) = Lettered key value reason now w w'
  Answered key value reason now w (some (err _, w')) =
      (k.messages w' ≡ k.messages w) ⊎ Lettered key value reason now w w'

  letter_written-Answered :
      (key value : V) (reason : String) (now : ℕ) (w w' : W) (bytes : V) (r : Reply (Unit {0}))
      → json.unmarshal bytes
        ≡ some (record {
          original_key = as_text laws.is_utf8 laws.replaced key;
          original_value = as_text laws.is_utf8 laws.replaced value;
          dlq_reason = reason;
          timestamp = now;
        })
      → Stored (dlq_message json writer key bytes reason) r (k.messages w) (k.messages w')
      → Answered key value reason now w (some (letter_written r, w'))
  letter_written-Answered key value reason now w w' bytes (done _) reads stored =
      (bytes, stored, reads)
  letter_written-Answered key value reason now w w' bytes fault reads (inl same) = inl same
  letter_written-Answered key value reason now w w' bytes fault reads (inr stored) =
      inr (bytes, stored, reads)

  write_letter-Answered :
      (key value : V) (reason : String) (now : ℕ) (w : W) (o : Option V)
      → json.marshal (record {
        original_key = key;
        original_value = value;
        dlq_reason = reason;
        timestamp = now;
      })
        ≡ o
      → Answered key value reason now w (some (write_letter json writer key reason o w))
  unfolding write_letter
  write_letter-Answered key value reason now w none e = inl refl
  write_letter-Answered key value reason now w (some bytes) e =
      let m = dlq_message json writer key bytes reason in
      letter_written-Answered key value reason now w (writer.write_messages m w).1 bytes
        (writer.write_messages m w).0 (laws.round_trip _ bytes e) (k.write_stores m w)

  -- A producer that is made answers like this.
  pub publish_to_dlq-Answered :
      (settings : WriterSettings) (topic : String) (key value : V) (reason : String) (now : ℕ)
      (w : W)
      → let p : DlqProducer = record { writer = some settings; dlq_topic = topic } in
        Answered key value reason now w (publish_to_dlq json writer (some p) key value reason now w)
  unfolding publish_to_dlq
  publish_to_dlq-Answered settings topic key value reason now w =
      write_letter-Answered key value reason now w _ refl

  module _ {K : Type 0} (dialer : KafkaDialer K) (conn : KafkaConn K) (i : IsKafkaConn conn)
      (d : IsDialer dialer i) (config : KafkaConfig) where
    -- The topic is there, and every message can be put into it.
    abbrev pub Ready : Result (Option DlqProducer) → K → Type 0
    Ready (err _) k' = Unit
    Ready (ok p) k' =
        (i.has_topic config.dlq_topic k' ≡ true)
        × ((key value : V) (reason : String) (now : ℕ) (w : W)
            → Answered key value reason now w (publish_to_dlq json writer p key value reason now w))
