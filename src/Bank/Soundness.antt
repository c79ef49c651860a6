-- ===== src/Bank/Soundness.antt =====
-- What every run of the two programs keeps.
use mathlib.Core.List.{Memᴰ}
use innoscripta_banking_ledg.Base.{◌≡◌, inl, inr, sym, subst, true, IsInt64, List, All}
use innoscripta_banking_ledg.Domain.Shared.{TransactionRequest}
use innoscripta_banking_ledg.Domain.Account.{Account}
use innoscripta_banking_ledg.Domain.Ledger.{Entry}
use innoscripta_banking_ledg.Domain.Outbox.{Json, Message}
use innoscripta_banking_ledg.Platform.Schema.{accounts_schema, outbox_schema}
use innoscripta_banking_ledg.Platform.Postgres.{Postgres, IsPostgres}
use innoscripta_banking_ledg.Platform.Collection.{Collection, IsCollection}
use innoscripta_banking_ledg.Gateway.TransactionService.{MessagePublisher}
use innoscripta_banking_ledg.Gateway.Dto.{Binding, IsBinding, Formats, IsFormats}
use innoscripta_banking_ledg.Gateway.TransactionHandler.Publishing.{Publishes}
use innoscripta_banking_ledg.Gateway.AccountHandler.Opening.{OpensOne}
use innoscripta_banking_ledg.Gateway.Router.{Backends}
use innoscripta_banking_ledg.Gateway.Router.Serving.{serve-Called}
use innoscripta_banking_ledg.Processor.Poller.{Poller}
use innoscripta_banking_ledg.Processor.Poller.Delivered.{Delivered, AllDelivered}
use innoscripta_banking_ledg.Processor.Service.Validity.{IsValid}
use innoscripta_banking_ledg.Processor.System as System
use innoscripta_banking_ledg.Processor.System.Delivery.{ValidRequest, Step-InStep, All-append}
use innoscripta_banking_ledg.Bank.{IsTopic, Sent, Step, call, handle, tick, Run, start, next}

pub All-Memᴰ {ℓ κ} :
    {A : Type ℓ} (P : A → Type κ) {a : A} (xs : List A) → Memᴰ a xs → All P xs → P a
All-Memᴰ P _ (Memᴰ.head e) all = subst P (sym e) all.0
All-Memᴰ P _ (Memᴰ.tail at) all = All-Memᴰ P _ at all.1

Sent-ValidRequest :
    (r : TransactionRequest) (before after : List TransactionRequest)
    → ValidRequest r
    → All ValidRequest before
    → Sent r before after
    → All ValidRequest after
Sent-ValidRequest r before after valid all (inl e) = subst (All ValidRequest) (sym e) all
Sent-ValidRequest r before after valid all (inr e) =
    subst (All ValidRequest) (sym e) (All-append ValidRequest before r all valid)

-- A new account leaves the tables valid.
pub OpensOne-IsValid :
    {B : Type 0} (rows rows' : List Account) (queue queue' : List (Message B))
    → OpensOne rows rows'
    → queue' ≡ queue
    → IsValid rows queue
    → IsValid rows' queue'
OpensOne-IsValid rows rows' queue queue' (inl same) q v = record {
  accounts = subst (λ l. accounts_schema l ≡ true) (sym same) v.accounts;
  range = subst (All (λ row. IsInt64 row.balance)) (sym same) v.range;
  outbox = subst (λ l. outbox_schema l ≡ true) (sym q) v.outbox;
}
OpensOne-IsValid rows rows' queue queue' (inr (acc, is, (row, schema))) q v = record {
  accounts = schema;
  range =
      subst (All (λ a. IsInt64 a.balance)) (sym row)
        (All-append (λ a. IsInt64 a.balance) rows acc v.range is.1);
  outbox = subst (λ l. outbox_schema l ≡ true) (sym q) v.outbox;
}

module _ {V B P X M T : Type 0} (f : Formats) (texts : IsFormats f) (b : Binding V)
    (tags : IsBinding b) (pg : Postgres B P X) (i : IsPostgres pg) (c : Collection M)
    (j : IsCollection c) (json : Json B) (poller : Poller) (producer : MessagePublisher T)
    (k : IsTopic producer) where
  -- The tables are valid, every message that is marked as processed has been delivered, and every
  -- request in the topic is valid.
  pub record IsSound (w : Backends P M T) : Type 0 where
    pub tables : IsValid (i.pool.accounts w.world.pg) (i.pool.messages w.world.pg)
    pub delivered : AllDelivered i.pool j json w.world
    pub requests : All ValidRequest (k.requests w.topic)

  Publishes-ValidRequest :
      (t t' : T)
      → Publishes producer t t'
      → All ValidRequest (k.requests t)
      → All ValidRequest (k.requests t')
  Publishes-ValidRequest t t' (inl same) all =
      subst (λ u. All ValidRequest (k.requests u)) (sym same) all
  Publishes-ValidRequest t t' (inr (r, valid, sent)) all =
      subst (λ u. All ValidRequest (k.requests u)) (sym sent)
        (Sent-ValidRequest r _ _ valid all (k.publish_sends r.transaction_id r t))

  Delivered-still :
      (entries entries' : List Entry) (queue queue' : List (Message B))
      → entries' ≡ entries
      → queue' ≡ queue
      → Delivered json entries queue
      → Delivered json entries' queue'
  Delivered-still entries entries' queue queue' e q d =
      subst (λ l. Delivered json l queue') (sym e) (subst (λ l. Delivered json entries l) (sym q) d)

  pub Step-IsSound :
      {w w' : Backends P M T}
      → Step f b pg c json poller producer k.requests w w'
      → IsSound w
      → IsSound w'
  Step-IsSound (call new_correlation fresh request w) s =
      let (opens, messages, entries, published) =
        serve-Called f texts b tags pg.pool i.pool c j producer new_correlation fresh request w in
      record {
        tables = OpensOne-IsValid _ _ _ _ opens messages s.tables;
        delivered = Delivered-still _ _ _ _ entries messages s.delivered;
        requests = Publishes-ValidRequest w.topic _ published s.requests;
      }
  Step-IsSound (handle r now w at) s =
      let (tables, delivered) =
        Step-InStep pg i c j json poller
          (System.handle r now w.world (All-Memᴰ ValidRequest (k.requests w.topic) at s.requests))
          (s.tables, s.delivered) in
      record { tables = tables; delivered = delivered; requests = s.requests }
  Step-IsSound (tick now w) s =
      let (tables, delivered) =
        Step-InStep pg i c j json poller (System.tick now w.world) (s.tables, s.delivered) in
      record { tables = tables; delivered = delivered; requests = s.requests }

  -- Gateway and processor together: after any sequence of calls of the gateway, of requests from the
  -- topic, each handled any number of times, and of ticks, whatever the databases and Kafka answer:
  -- if the tables were valid, the transaction of every message that was marked as processed was
  -- COMPLETED in the ledger and every request in the topic passed the validator, all this is so again.
  pub Run-IsSound :
      {w w' : Backends P M T}
      → Run f b pg c json poller producer k.requests w w'
      → IsSound w
      → IsSound w'
  Run-IsSound (start w) s = s
  Run-IsSound (next run step) s = Step-IsSound step (Run-IsSound run s)
