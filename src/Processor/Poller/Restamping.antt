-- ===== src/Processor/Poller/Restamping.antt =====
-- Updates of the row of one message of the outbox, one after another.
use innoscripta_banking_ledg.Base.{
  ℕ, ◌≡◌, refl, ◌∙◌, ap, true, some, List, [], ◌∷◌, ◌==◌, find?, find?-update_all, arith,
}
use innoscripta_banking_ledg.Domain.Result.{Result, ok, err}
use innoscripta_banking_ledg.Domain.Outbox.{Message}
use innoscripta_banking_ledg.Domain.Outbox.Content.{
  content, contents, contents-update_all, outbox_schema_of_contents,
}
use innoscripta_banking_ledg.Platform.Schema.{outbox_schema}
use innoscripta_banking_ledg.Data.OutboxRepository.Writes.{stamped, Stamped}

module _ {B : Type 0} where
  pub stamped_self : (id : ℕ) (queue : List (Message B)) → stamped id (λ r. r) queue ≡ queue
  stamped_self id [] = refl
  stamped_self id (m ∷ queue) = ground (arith, stamped_self id queue)

  pub stamped-stamped :
      (id : ℕ) (f g : Message B → Message B)
      → ((m : Message B) → content (f m) ≡ content m)
      → (queue : List (Message B))
      → stamped id g (stamped id f queue) ≡ stamped id (λ m. g (f m)) queue
  stamped-stamped id f g same [] = refl
  stamped-stamped id f g same (m ∷ queue) =
      ground (arith, ap (λ (x : Message B). x.id) (same m), stamped-stamped id f g same queue)

  pub Stamped-ok :
      (id : ℕ) (f : Message B → Message B) (before after : List (Message B)) (r : Result (Unit {0}))
      → r ≡ ok tt
      → Stamped id f before after r
      → after ≡ stamped id f before
  Stamped-ok id f before after (ok _) e s = s
  Stamped-ok id f before after (err _) e s = absurd (ground arith)

  -- The outbox has the message as it was read.
  abbrev pub IsCurrent : Message B → List (Message B) → Type 0
  IsCurrent message queue = find? (λ row. row.id == message.id) queue ≡ some message

  -- An update of the row of a message, of its status and its attempts alone.
  abbrev pub Restamped : ℕ → (Message B → Message B) → List (Message B) → List (Message B) → Type 0
  Restamped id f before after =
      ((m : Message B) → content (f m) ≡ content m) × (after ≡ stamped id f before)

module _ {B : Type 0} (message : Message B) where
  pub Restamped-schema :
      (f : Message B → Message B) (before after : List (Message B))
      → Restamped message.id f before after
      → outbox_schema before ≡ true
      → outbox_schema after ≡ true
  Restamped-schema f before after (same, e) schema =
      outbox_schema_of_contents before after
        (ap contents e ∙ contents-update_all (λ row. row.id == message.id) f same before) schema

  pub Restamped-find? :
      (f : Message B → Message B) (before after : List (Message B))
      → Restamped message.id f before after
      → IsCurrent message before
      → find? (λ row. row.id == message.id) after ≡ some (f message)
  Restamped-find? f before after (same, e) is =
      ap (find? (λ row. row.id == message.id)) e
      ∙ find?-update_all (λ r. r.id) message.id f (λ m. ap (λ (x : Message B). x.id) (same m))
          before message is

  -- An update after another.
  pub restamp :
      (f g : Message B → Message B) (before middle after : List (Message B))
      → Restamped message.id f before middle
      → ((m : Message B) → content (g m) ≡ content m)
      → after ≡ stamped message.id g middle
      → Restamped message.id (λ m. g (f m)) before after
  restamp f g before middle after (same, e) same' e' = (
    λ m. same' (f m) ∙ same m,
    e' ∙ ap (stamped message.id g) e ∙ stamped-stamped message.id f g same before,
  )
