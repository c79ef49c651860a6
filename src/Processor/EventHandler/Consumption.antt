-- ===== src/Processor/EventHandler/Consumption.antt =====
-- The loop of the consumer over the event handler over the processing service is a run of the
-- processor.
use mathlib.Core.List.{Memᴰ}
use innoscripta_banking_ledg.Base.{ℕ, ◌≡◌, refl, sym, subst, Option, none, some, List, [], ◌∷◌}
use innoscripta_banking_ledg.Domain.Shared.{TransactionRequest}
use innoscripta_banking_ledg.Domain.Result.{Exec}
use innoscripta_banking_ledg.Domain.Outbox.{Json}
use innoscripta_banking_ledg.Platform.Postgres.{Postgres}
use innoscripta_banking_ledg.Platform.Collection.{Collection}
use innoscripta_banking_ledg.Platform.World.{World}
use innoscripta_banking_ledg.Processor.Poller.{Poller}
use innoscripta_banking_ledg.Processor.Consumer.{KafkaMessage, Reader, Session, Round, fetch_loop}
use innoscripta_banking_ledg.Processor.Consumer.Commits.{handle_all}
use innoscripta_banking_ledg.Processor.Consumer.Fetching.{messages_of, fetch_loop_commits}
use innoscripta_banking_ledg.Processor.EventHandler.{
  DeadLetterPublisher, Channels, reject_message, handle_decoded, handle_message,
}
use innoscripta_banking_ledg.Processor.System.{Run, start, next, handle}

module _ {B P X M V T R : Type 0} (pg : Postgres B P X) (c : Collection M) (json : Json B)
    (poller : Poller) (decode : V → Option TransactionRequest)
    (producer : Option (DeadLetterPublisher V T)) (reader : Reader R)
    (clock : Channels P M T → ℕ) where
  -- What the consumer is given as its handler; the clock says when a message is handled.
  abbrev pub event_handler : V → V → Exec (Channels P M T) (Unit {0})
  event_handler key value w = handle_message pg c json decode producer key value (clock w) w

  -- A request that the value of one of the messages is read as.
  abbrev pub IsRead : List (KafkaMessage V) → TransactionRequest → Type 0
  IsRead messages r = (msg : KafkaMessage V) × Memᴰ msg messages × (decode msg.value ≡ some r)

  -- A message that cannot be read leaves the databases alone.
  rejected_world :
      (p : Option (DeadLetterPublisher V T)) (key value : V) (w : Channels P M T)
      → (reject_message pg c json decode p key value w).1.world ≡ w.world
  unfolding reject_message
  rejected_world none key value w = refl
  rejected_world (some p) key value w = refl

  decoded-Run :
      (all : List (KafkaMessage V)) (first : World P M) (msg : KafkaMessage V) (now : ℕ)
      (o : Option TransactionRequest) (w : Channels P M T)
      → Memᴰ msg all
      → decode msg.value ≡ o
      → Run pg c json poller (IsRead all) first w.world
      → Run pg c json poller
          (IsRead all)
          first
          (handle_decoded pg c json decode producer msg.key msg.value now o w).1.world
  unfolding handle_decoded
  decoded-Run all first msg now none w fetched e run =
      subst (Run pg c json poller (IsRead all) first)
        (sym (rejected_world producer msg.key msg.value w)) run
  decoded-Run all first msg now (some request) w fetched e run =
      next run (handle request now w.world (msg, fetched, e))

  handle_all-Run :
      (all : List (KafkaMessage V)) (first : World P M) (messages : List (KafkaMessage V))
      (w : Channels P M T)
      → ((msg : KafkaMessage V) → Memᴰ msg messages → Memᴰ msg all)
      → Run pg c json poller (IsRead all) first w.world
      → Run pg c json poller (IsRead all) first (handle_all reader event_handler messages w).world
  unfolding handle_message
  handle_all-Run all first [] w among run = run
  handle_all-Run all first (msg ∷ messages) w among run =
      handle_all-Run all first messages (event_handler msg.key msg.value w).1
        (λ m at. among m (Memᴰ.tail at))
        (decoded-Run all first msg (clock w) (decode msg.value) w (among msg (Memᴰ.head refl)) refl
          run)

  -- Refinement: the loop of the consumer, whatever its fetches come back with, with `HandleMessage` as
  -- its handler, whatever the databases and the dead letter queue answer and at whatever times: the
  -- databases go through a run of the processor that handles one request after the other, each of them
  -- read from the value of a message that has been fetched. What holds of every run of the processor
  -- holds of the consumer.
  pub fetch_loop-Run :
      (rounds : List (Round V)) (w : Session (Channels P M T) R)
      → Run pg c json poller
          (IsRead (messages_of rounds))
          w.handled.world
          (fetch_loop reader event_handler rounds w).1.handled.world
  fetch_loop-Run rounds w =
      let (handled, _) = fetch_loop_commits reader event_handler rounds w in
      subst (λ s. Run pg c json poller (IsRead (messages_of rounds)) w.handled.world s.world)
        (sym handled)
        (handle_all-Run (messages_of rounds) w.handled.world (messages_of rounds) w.handled
          (λ m at. at) (start w.handled.world))
