-- ===== src/Processor/Consumer/Commits.antt =====
-- Which offsets the consumer commits.
use innoscripta_banking_ledg.Base.{ℕ, ◌≡◌, refl, ap, ◌∙◌, List, [], ◌∷◌, ◌++◌}
use innoscripta_banking_ledg.Domain.Result.{Result, ok, err, Exec}
use innoscripta_banking_ledg.Processor.Consumer.{
  KafkaMessage, Reader, Session, commit_if, consume, subscribe,
}

module _ {V S K : Type 0} (reader : Reader K) (handler : V → V → Exec S (Unit {0})) where
  -- What the handler makes of the messages, one after the other.
  abbrev offset_if : ℕ → Result (Unit {0}) → List ℕ
  offset_if offset (ok _) = offset ∷ []
  offset_if offset (err _) = []

  -- The offsets of the messages that the handler accepts, in order.
  abbrev pub accepted_offsets : List (KafkaMessage V) → S → List ℕ
  accepted_offsets [] s = []
  accepted_offsets (msg ∷ messages) s =
      let (r, s') = handler msg.key msg.value s in
      offset_if msg.offset r ++ accepted_offsets messages s'

  -- Commits, one after the other.
  abbrev pub commit_all : List ℕ → K → K
  commit_all [] k = k
  commit_all (offset ∷ offsets) k = commit_all offsets (reader.commit_messages offset k).1

  -- The state after the handler has seen every message.
  abbrev pub handle_all : List (KafkaMessage V) → S → S
  handle_all [] s = s
  handle_all (msg ∷ messages) s = handle_all messages (handler msg.key msg.value s).1

  commit_if_commits :
      (offset : ℕ) (r : Result (Unit {0})) (s : S) (k : K) (offsets : List ℕ)
      → commit_all offsets (commit_if reader handler offset r s k).reader
        ≡ commit_all (offset_if offset r ++ offsets) k
  unfolding commit_if
  commit_if_commits offset (ok _) s k offsets = refl
  commit_if_commits offset (err _) s k offsets = refl

  commit_if_handled :
      (offset : ℕ) (r : Result (Unit {0})) (s : S) (k : K)
      → (commit_if reader handler offset r s k).handled ≡ s
  unfolding commit_if
  commit_if_handled offset (ok _) s k = refl
  commit_if_handled offset (err _) s k = refl

  -- The consumer hands every message to the handler, in order and whatever became of those before,
  -- and commits exactly the offsets of the messages that the handler accepts, in their order.
  pub subscribe_commits :
      (messages : List (KafkaMessage V)) (w : Session S K)
      → ((subscribe reader handler messages w).handled ≡ handle_all messages w.handled)
        × ((subscribe reader handler messages w).reader
            ≡ commit_all (accepted_offsets messages w.handled) w.reader)
  unfolding subscribe consume
  subscribe_commits [] w = (refl, refl)
  subscribe_commits (msg ∷ messages) w =
      let (r, s) = handler msg.key msg.value w.handled in
      let w' = consume reader handler msg w in
      let (handled, commits) = subscribe_commits messages w' in
      let same = commit_if_handled msg.offset r s w.reader in
      (
        handled ∙ ap (handle_all messages) same,
        commits
            ∙ ap (λ s'. commit_all (accepted_offsets messages s') w'.reader) same
            ∙ commit_if_commits msg.offset r s w.reader (accepted_offsets messages s),
      )
