-- ===== src/Processor/EventHandler/Handling.antt =====
-- What has become of a message whose offset is committed.
use innoscripta_banking_ledg.Base.{
  ℕ, IsInt64, ◌≡◌, ◌⊎◌, inl, inr, refl, true, Option, none, some, All,
}
use innoscripta_banking_ledg.Domain.Shared.{TransactionRequest}
use innoscripta_banking_ledg.Domain.Result.{Result, ok, err}
use innoscripta_banking_ledg.Domain.Outbox.{Json}
use innoscripta_banking_ledg.Platform.Reply.{Reply, done, fault}
use innoscripta_banking_ledg.Platform.Schema.{accounts_schema}
use innoscripta_banking_ledg.Platform.Postgres.{Postgres, IsPostgres}
use innoscripta_banking_ledg.Platform.Collection.{Collection, IsCollection}
use innoscripta_banking_ledg.Platform.World.{World}
use innoscripta_banking_ledg.Processor.Service.{process_transaction}
use innoscripta_banking_ledg.Processor.Service.Acknowledged.{
  SettledFrom, process_transaction_settled,
}
use innoscripta_banking_ledg.Processor.EventHandler.{
  DeadLetterPublisher, Channels, dead_lettered, processing_error, reject_message, handle_decoded,
  handle_message,
}

module _ {B P X M V T : Type 0} (pg : Postgres B P X) (i : IsPostgres pg) (c : Collection M)
    (j : IsCollection c) (json : Json B) (decode : V → Option TransactionRequest)
    (producer : Option (DeadLetterPublisher V T)) (key value : V) (now : ℕ) where
  -- The message cannot be read, and is in the dead letter queue; the databases are untouched.
  abbrev pub IsDeadLetter : Channels P M T → Channels P M T → Type 0
  IsDeadLetter w w' =
      (decode value ≡ none)
      × ((p : DeadLetterPublisher V T) × (producer ≡ some p)
          × (p.publish_to_dlq key value w.dead_letters ≡ (done tt, w'.dead_letters)))
      × (w'.world ≡ w.world)

  -- The message is a request, which has been settled.
  abbrev pub IsSettled : Channels P M T → Channels P M T → Type 0
  IsSettled w w' =
      (request : TransactionRequest) × (decode value ≡ some request)
      × SettledFrom pg i c j json request now w.world (ok tt) w'.world
      × (w'.dead_letters ≡ w.dead_letters)

  abbrev pub Handled : Channels P M T → Result (Unit {0}) → Channels P M T → Type 0
  Handled w (err _) w' = Unit
  Handled w (ok _) w' = IsDeadLetter w w' ⊎ IsSettled w w'

  replied-Handled :
      (w : Channels P M T)
      → decode value ≡ none
      → (p : DeadLetterPublisher V T) → producer ≡ some p
      → (r : Reply (Unit {0})) (t : T) → p.publish_to_dlq key value w.dead_letters ≡ (r, t)
      → Handled w (dead_lettered r) (record w { dead_letters = t })
  replied-Handled w unreadable p e fault t h = tt
  replied-Handled w unreadable p e (done _) t h = inl (unreadable, (p, e, h), refl)

  processed-Handled :
      (w : Channels P M T) (request : TransactionRequest)
      → decode value ≡ some request
      → (r : Result (Unit {0})) (world : World P M)
      → SettledFrom pg i c j json request now w.world r world
      → Handled w (processing_error r) (record w { world = world })
  processed-Handled w request e (err _) world s = tt
  processed-Handled w request e (ok _) world s = inr (request, e, s, refl)

  reject_message-Handled :
      (w : Channels P M T)
      → decode value ≡ none
      → (o : Option (DeadLetterPublisher V T)) → producer ≡ o
      → let (r, w') = reject_message pg c json decode o key value w in Handled w r w'
  unfolding reject_message
  reject_message-Handled w unreadable none e = tt
  reject_message-Handled w unreadable (some p) e =
      replied-Handled w unreadable p e (p.publish_to_dlq key value w.dead_letters).0
        (p.publish_to_dlq key value w.dead_letters).1 refl

  handle_decoded-Handled :
      (w : Channels P M T)
      → ((r : TransactionRequest) → decode value ≡ some r → IsInt64 r.amount)
      → accounts_schema (i.pool.accounts w.world.pg) ≡ true
      → All (λ row. IsInt64 row.balance) (i.pool.accounts w.world.pg)
      → (o : Option TransactionRequest) → decode value ≡ o
      → let (r, w') = handle_decoded pg c json decode producer key value now o w in Handled w r w'
  unfolding handle_decoded
  handle_decoded-Handled w amount valid range none e = reject_message-Handled w e producer refl
  handle_decoded-Handled w amount valid range (some request) e =
      processed-Handled w request e (process_transaction pg c json request now w.world).0
        (process_transaction pg c json request now w.world).1
        (process_transaction_settled pg i c j json request now w.world (amount request e) valid
          range)

  -- A message for which `HandleMessage` returns no error has been handled for good: it cannot be read
  -- and Kafka has taken it into the dead letter queue, or it is a request that has been settled.
  -- This holds from tables that satisfy their constraints and hold 64-bit balances, for 64-bit
  -- amounts, whatever the databases answer.
  pub handle_message-Handled :
      (w : Channels P M T)
      → ((r : TransactionRequest) → decode value ≡ some r → IsInt64 r.amount)
      → accounts_schema (i.pool.accounts w.world.pg) ≡ true
      → All (λ row. IsInt64 row.balance) (i.pool.accounts w.world.pg)
      → let (r, w') = handle_message pg c json decode producer key value now w in Handled w r w'
  unfolding handle_message
  handle_message-Handled w amount valid range =
      handle_decoded-Handled w amount valid range (decode value) refl
