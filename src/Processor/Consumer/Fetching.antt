-- ===== src/Processor/Consumer/Fetching.antt =====
-- The loop of the consumer, with its fetches, and the messages that it gets.
use innoscripta_banking_ledg.Base.{◌≡◌, refl, ◌∙◌, ap, List, [], ◌∷◌}
use innoscripta_banking_ledg.Domain.Result.{Exec}
use innoscripta_banking_ledg.Processor.Consumer.{
  KafkaMessage, Reader, Session, consume, subscribe, Round, cancelled, fetched, fetch_failed,
  fetch_cancelled, fetch_loop,
}
use innoscripta_banking_ledg.Processor.Consumer.Commits.{
  accepted_offsets, commit_all, handle_all, subscribe_commits,
}

-- The messages that are fetched before the context is done.
abbrev pub messages_of : {V : Type 0} → List (Round V) → List (KafkaMessage V)
messages_of [] = []
messages_of (cancelled ∷ rounds) = []
messages_of (fetched msg ∷ rounds) = msg ∷ messages_of rounds
messages_of (fetch_failed ∷ rounds) = messages_of rounds
messages_of (fetch_cancelled ∷ rounds) = []

module _ {V S K : Type 0} (reader : Reader K) (handler : V → V → Exec S (Unit {0})) where
  -- A fetch that fails changes nothing, and nothing is fetched after the end.
  fetch_loop-subscribe :
      (rounds : List (Round V)) (w : Session S K)
      → (fetch_loop reader handler rounds w).1 ≡ subscribe reader handler (messages_of rounds) w
  unfolding fetch_loop subscribe
  fetch_loop-subscribe [] w = refl
  fetch_loop-subscribe (cancelled ∷ rounds) w = refl
  fetch_loop-subscribe (fetched msg ∷ rounds) w =
      fetch_loop-subscribe rounds (consume reader handler msg w)
  fetch_loop-subscribe (fetch_failed ∷ rounds) w = fetch_loop-subscribe rounds w
  fetch_loop-subscribe (fetch_cancelled ∷ rounds) w = refl

  -- The consumer, whatever its fetches come back with: it hands every message that it fetches before
  -- its context is done to the handler, in order and whatever became of those before, and commits
  -- exactly the offsets of the messages that the handler accepts, in their order.
  pub fetch_loop_commits :
      (rounds : List (Round V)) (w : Session S K)
      → let messages = messages_of rounds in
        let (_, w') = fetch_loop reader handler rounds w in
        (w'.handled ≡ handle_all reader handler messages w.handled)
        × (w'.reader
            ≡ commit_all reader handler
                (accepted_offsets reader handler messages w.handled)
                w.reader)
  fetch_loop_commits rounds w =
      let (handled, commits) = subscribe_commits reader handler (messages_of rounds) w in
      let same = fetch_loop-subscribe rounds w in
      (ap (λ u. u.handled) same ∙ handled, ap (λ u. u.reader) same ∙ commits)
