-- ===== src/Processor/System/Overlapping.antt =====
-- A run of the processor as moves on the databases, between which others may come.
use innoscripta_banking_ledg.Platform.Postgres.{Postgres}
use innoscripta_banking_ledg.Platform.Collection.{Collection}
use innoscripta_banking_ledg.Platform.World.{World}
use innoscripta_banking_ledg.Processor.Poller.{Poller}
