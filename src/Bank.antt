-- ===== src/Bank.antt =====
-- cmd/api_gateway/main.go and cmd/transaction_processor/main.go: the two programs over the same
-- databases and the topic between them. What they do is a sequence of whole calls of the gateway,
-- whole requests of the processor and whole ticks of the poller, in any order. A request that is in
-- the topic may be handled any number of times, which covers redelivery.
pub mod Soundness
pub mod Openings
pub mod Balances
use mathlib.Core.List.{Memᴰ}
use innoscripta_banking_ledg.Base.{ℕ, ◌≡◌, ◌⊎◌, List, [], ◌∷◌, ◌++◌}
use innoscripta_banking_ledg.Domain.Shared.{TransactionRequest}
use innoscripta_banking_ledg.Domain.Outbox.{Json}
use innoscripta_banking_ledg.Platform.Postgres.{Postgres}
use innoscripta_banking_ledg.Platform.Collection.{Collection}
use innoscripta_banking_ledg.Gateway.TransactionService.{MessagePublisher}
use innoscripta_banking_ledg.Gateway.Dto.{Binding, Formats}
use innoscripta_banking_ledg.Gateway.TransactionHandler.{Fresh}
use innoscripta_banking_ledg.Gateway.Router.{HttpRequest, Backends, serve}
use innoscripta_banking_ledg.Processor.Service.{process_transaction}
use innoscripta_banking_ledg.Processor.Poller.{Poller, process_pending_messages}

-- What publishing does to the requests in the topic. The writer of the gateway is asynchronous, so
-- that its reply does not tell whether Kafka has taken the message.
abbrev pub Sent : TransactionRequest → List TransactionRequest → List TransactionRequest → Type 0
Sent r before after = (after ≡ before) ⊎ (after ≡ before ++ r ∷ [])

-- The requests that can be read from the topic: JSON reads back what it has written.
pub record IsTopic {T : Type 0} (producer : MessagePublisher T) : Type 0 where
  pub requests : T → List TransactionRequest
  pub publish_sends :
      (key : ℕ) (r : TransactionRequest) (t : T)
      → Sent r (requests t) (requests (producer.publish key r t).1)

module _ {V B P X M T : Type 0} (f : Formats) (b : Binding V) (pg : Postgres B P X)
    (c : Collection M) (json : Json B) (poller : Poller) (producer : MessagePublisher T)
    (requests : T → List TransactionRequest) where
  pub data Step : Backends P M T → Backends P M T → Type 0 where
    call :
        (new_correlation : ℕ) (fresh : Fresh) (request : HttpRequest V) (w : Backends P M T)
        → Step w (serve f b pg.pool c producer new_correlation fresh request w).1
    handle :
        (r : TransactionRequest) (now : ℕ) (w : Backends P M T)
        → Memᴰ r (requests w.topic)
        → Step w (record w { world = (process_transaction pg c json r now w.world).1 })
    tick :
        (now : ℕ) (w : Backends P M T)
        → Step w
            (record w { world = (process_pending_messages poller pg.pool c json now w.world).1 })

  -- Zero or more steps.
  pub data Run : Backends P M T → Backends P M T → Type 0 where
    start : (w : Backends P M T) → Run w w
    next : {w w' w'' : Backends P M T} → Run w w' → Step w' w'' → Run w w''
