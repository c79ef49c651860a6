-- ===== src/Processor/System.antt =====
-- cmd/transaction_processor/main.go: the transaction processor as a whole, which handles requests and
-- polls the outbox. What it does is a sequence of whole requests and whole ticks, in any order.
pub mod Reconciliation
pub mod Delivery
pub mod Identities
pub mod Settlement
pub mod Overlapping
use innoscripta_banking_ledg.Base.{ℕ}
use innoscripta_banking_ledg.Domain.Shared.{TransactionRequest}
use innoscripta_banking_ledg.Domain.Outbox.{Json}
use innoscripta_banking_ledg.Platform.Postgres.{Postgres}
use innoscripta_banking_ledg.Platform.Collection.{Collection}
use innoscripta_banking_ledg.Platform.World.{World}
use innoscripta_banking_ledg.Processor.Service.{process_transaction}
use innoscripta_banking_ledg.Processor.Poller.{Poller, process_pending_messages}

module _ {B P X M : Type 0} (pg : Postgres B P X) (c : Collection M) (json : Json B)
    (poller : Poller) (Admits : TransactionRequest → Type 0) where
  -- `Admits` says which requests come in.
  pub data Step : World P M → World P M → Type 0 where
    handle :
        (r : TransactionRequest) (now : ℕ) (w : World P M)
        → Admits r
        → Step w (process_transaction pg c json r now w).1
    tick :
        (now : ℕ) (w : World P M) → Step w (process_pending_messages poller pg.pool c json now w).1

  -- Zero or more steps.
  pub data Run : World P M → World P M → Type 0 where
    start : (w : World P M) → Run w w
    next : {w w' w'' : World P M} → Run w w' → Step w' w'' → Run w w''
