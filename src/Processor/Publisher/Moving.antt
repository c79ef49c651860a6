-- ===== src/Processor/Publisher/Moving.antt =====
-- The publisher of the outbox as moves on the databases.
use innoscripta_banking_ledg.Base.{ℕ, Option, none, some}
use innoscripta_banking_ledg.Domain.Shared.{processed, failed_to_publish}
use innoscripta_banking_ledg.Domain.Result.{Result, ok, err}
use innoscripta_banking_ledg.Domain.Ledger.{Entry}
use innoscripta_banking_ledg.Domain.Outbox.{Json, Message}
use innoscripta_banking_ledg.Platform.Postgres.{Postgres}
use innoscripta_banking_ledg.Platform.Collection.{Collection}
use innoscripta_banking_ledg.Platform.World.{World}
use innoscripta_banking_ledg.Processor.Service.Overlap.{Moves, still, more, mark, elsewhere}
use innoscripta_banking_ledg.Processor.Publisher.{
  publish_entry, completed_entry, mark_published, publish_payload, publish_to_ledger,
}

module _ {B P X M : Type 0} (pg : Postgres B P X) (c : Collection M) (json : Json B)
    (message : Message B) (now : ℕ) where
  marked-Moves :
      (first w : World P M) (r : Result (Unit {0}))
      → Moves pg c json first w
      → Moves pg c json first (mark_published pg.pool c json message now r w).1
  unfolding mark_published
  marked-Moves first w (err e) moves = moves
  marked-Moves first w (ok _) moves = more moves (mark message.id processed now w)

  payload-Moves :
      (w : World P M) (o : Option Entry)
      → Moves pg c json w (publish_payload pg.pool c json message now o w).1
  unfolding publish_payload
  payload-Moves w none = more (still w) (mark message.id failed_to_publish now w)
  payload-Moves w (some entry) =
      let (r, m) = publish_entry c (completed_entry now entry) now w.mongo in
      marked-Moves w (record w { mongo = m }) r (more (still w) (elsewhere m w))

  pub publish_to_ledger-Moves :
      (w : World P M) → Moves pg c json w (publish_to_ledger pg.pool c json message now w).1
  unfolding publish_to_ledger
  publish_to_ledger-Moves w = payload-Moves w (json.unmarshal message.payload)
