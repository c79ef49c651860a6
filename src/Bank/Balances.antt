-- ===== src/Bank/Balances.antt =====
-- Where every balance comes from, in every run of the two programs.
use innoscripta_banking_ledg.Base.{◌+ℤ◌, ◌≡◌, inl, inr, sym, ap, ap₂, List, [], ◌∷◌, ◌++◌}
use innoscripta_banking_ledg.Domain.Account.{Account}
use innoscripta_banking_ledg.Domain.Outbox.{Json, IsJson}
use innoscripta_banking_ledg.Platform.Postgres.{Postgres, IsPostgres}
use innoscripta_banking_ledg.Platform.Collection.{Collection, IsCollection}
use innoscripta_banking_ledg.Gateway.TransactionService.{MessagePublisher}
use innoscripta_banking_ledg.Gateway.Dto.{Binding, IsBinding, Formats, IsFormats}
use innoscripta_banking_ledg.Gateway.AccountHandler.Opening.{OpensOne}
use innoscripta_banking_ledg.Gateway.Router.{Backends, serve}
use innoscripta_banking_ledg.Gateway.Router.Serving.{serve-Called}
use innoscripta_banking_ledg.Processor.Journal.{balance_of, journal_of}
use innoscripta_banking_ledg.Processor.Poller.{Poller}
use innoscripta_banking_ledg.Processor.System as System
use innoscripta_banking_ledg.Bank.Openings.{Grown, Grown-change, Grown-open, Grown-start}
use innoscripta_banking_ledg.Processor.System.Identities.{ids, Step-ids}
use innoscripta_banking_ledg.Processor.System.Delivery.{ValidRequest}
use innoscripta_banking_ledg.Processor.System.Reconciliation.{Step-Explains}
use innoscripta_banking_ledg.Bank.{IsTopic, Step, call, handle, tick, Run, start, next}
use innoscripta_banking_ledg.Bank.Soundness.{IsSound, Run-IsSound, All-Memᴰ}

module _ {V B P X M T : Type 0} (f : Formats) (texts : IsFormats f) (b : Binding V)
    (tags : IsBinding b) (pg : Postgres B P X) (i : IsPostgres pg) (c : Collection M)
    (j : IsCollection c) (json : Json B) (laws : IsJson json) (poller : Poller)
    (producer : MessagePublisher T) (k : IsTopic producer) where
  abbrev pub Explained : Backends P M T → Backends P M T → Type 0
  Explained w w' =
      (opened : List Account) × Grown json (i.pool.accounts w.world.pg) (i.pool.messages w.world.pg)
        (i.pool.accounts w'.world.pg) (i.pool.messages w'.world.pg) opened

  call-Explained :
      (w w' w'' : Backends P M T)
      → Explained w w'
      → OpensOne (i.pool.accounts w'.world.pg) (i.pool.accounts w''.world.pg)
      → i.pool.messages w''.world.pg ≡ i.pool.messages w'.world.pg
      → Explained w w''
  call-Explained w w' w'' (opened, g) (inl same) messages = (
    opened,
    Grown-change json _ _ _ _ _ _ opened g (ap ids same) λ id.
        ap₂ (λ x y. x +ℤ y) (ap (balance_of id) same) (sym (ap (journal_of json id) messages)),
  )
  call-Explained w w' w'' (opened, g) (inr (acc, is, inserted)) messages =
      (opened ++ acc ∷ [], Grown-open json _ _ _ _ _ _ opened g acc is inserted messages)

  Step-Explained :
      (w : Backends P M T) {w' w'' : Backends P M T}
      → Step f b pg c json poller producer k.requests w' w''
      → IsSound f texts b tags pg i c j json poller producer k w'
      → Explained w w'
      → Explained w w''
  Step-Explained w (call new_correlation fresh request w') s e =
      let (opens, messages, _, _) =
        serve-Called f texts b tags pg.pool i.pool c j producer new_correlation fresh request w' in
      call-Explained w w' (serve f b pg.pool c producer new_correlation fresh request w').1 e opens
        messages
  Step-Explained w (handle r now w' at) s (opened, g) =
      let amount = (All-Memᴰ ValidRequest (k.requests w'.topic) at s.requests).0 in
      let step = System.handle r now w'.world amount in
      (
        opened,
        Grown-change json _ _ _ _ _ _ opened g (Step-ids pg i c j json poller step s.tables)
            (Step-Explains pg i c j json laws poller step s.tables).1,
      )
  Step-Explained w (tick now w') s (opened, g) =
      let step = System.tick now w'.world in
      (
        opened,
        Grown-change json _ _ _ _ _ _ opened g (Step-ids pg i c j json poller step s.tables)
            (Step-Explains pg i c j json laws poller step s.tables).1,
      )

  -- Gateway and processor together: after any sequence of calls of the gateway, of requests from the
  -- topic, each handled any number of times, and of ticks, whatever the databases and Kafka answer:
  -- the accounts are those of the start and those that have been opened since, with balances that
  -- are not negative and fit 64 bits; and of every account the balance, less what the messages of
  -- the outbox say of it, is what it was at the start with what was paid in at its opening. This
  -- holds from tables that are valid, a topic of valid requests and an outbox whose processed
  -- messages have been delivered.
  pub Run-Explained :
      {w w' : Backends P M T}
      → Run f b pg c json poller producer k.requests w w'
      → IsSound f texts b tags pg i c j json poller producer k w
      → Explained w w'
  Run-Explained (start w) s = ([], Grown-start json _ _)
  Run-Explained {w} (next run step) s =
      Step-Explained w step (Run-IsSound f texts b tags pg i c j json poller producer k run s)
        (Run-Explained run s)
