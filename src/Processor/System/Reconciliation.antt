-- ===== src/Processor/System/Reconciliation.antt =====
-- Any run keeps the tables valid and explains every balance.
use innoscripta_banking_ledg.Base.{
  ℤ, ◌+ℤ◌, IsInt64, int_laws, pos_part, neg_part, ◌≡◌, refl, sym, ap, subst, true, List, All, arith,
}
use innoscripta_banking_ledg.Domain.Shared.{TransactionRequest}
use innoscripta_banking_ledg.Domain.Account.{Account}
use innoscripta_banking_ledg.Domain.Outbox.{Json, IsJson, Message}
use innoscripta_banking_ledg.Domain.Outbox.Content.{contents, outbox_schema_of_contents}
use innoscripta_banking_ledg.Platform.Schema.{accounts_schema}
use innoscripta_banking_ledg.Platform.Postgres.{Postgres, IsPostgres}
use innoscripta_banking_ledg.Platform.Collection.{Collection, IsCollection}
use innoscripta_banking_ledg.Platform.World.{World}
use innoscripta_banking_ledg.Processor.Journal.{balance_of, journal_of, journal_of-contents}
use innoscripta_banking_ledg.Processor.Poller.{Poller, process_pending_messages}
use innoscripta_banking_ledg.Processor.Poller.Polling.{process_pending_messages-Polled}
use innoscripta_banking_ledg.Processor.Service.Validity.{IsValid, process_transaction-IsValid}
use innoscripta_banking_ledg.Processor.Service.Reconciled.{
  Reconciled, process_transaction-Reconciled,
}
use innoscripta_banking_ledg.Processor.System.{Step, handle, tick, Run, start, next}

-- A request as Go has it: its amount is an `int64`.
abbrev pub AnyRequest : TransactionRequest → Type 0
AnyRequest r = IsInt64 r.amount

-- Messages that have kept their contents keep the tables valid.
pub IsValid-of_contents :
    {B : Type 0} (rows rows' : List Account) (queue queue' : List (Message B))
    → rows' ≡ rows
    → contents queue' ≡ contents queue
    → IsValid rows queue
    → IsValid rows' queue'
IsValid-of_contents rows rows' queue queue' r m v = record {
  accounts = subst (λ l. accounts_schema l ≡ true) (sym r) v.accounts;
  range = subst (All (λ row. IsInt64 row.balance)) (sym r) v.range;
  outbox = outbox_schema_of_contents queue queue' m v.outbox;
}

cross_sums :
    (b b' b'' q q' q'' : ℤ) → b' +ℤ q ≡ b +ℤ q' → b'' +ℤ q' ≡ b' +ℤ q'' → b'' +ℤ q ≡ b +ℤ q''
cross_sums b b' b'' q q' q'' h h' =
    grind (int_laws, ap pos_part h, ap neg_part h, ap pos_part h', ap neg_part h')

pub Reconciled-trans :
    {B : Type 0} (json : Json B) (rows rows' rows'' : List Account)
    (queue queue' queue'' : List (Message B))
    → Reconciled json rows queue rows' queue'
    → Reconciled json rows' queue' rows'' queue''
    → Reconciled json rows queue rows'' queue''
Reconciled-trans json rows rows' rows'' queue queue' queue'' r r' id =
    cross_sums _ _ _ _ _ _ (r id) (r' id)

module _ {B P X M : Type 0} (pg : Postgres B P X) (i : IsPostgres pg) (c : Collection M)
    (j : IsCollection c) (json : Json B) (laws : IsJson json) (poller : Poller) where
  -- What a run keeps, seen from its start.
  abbrev pub Explains : World P M → World P M → Type 0
  Explains w w' =
      IsValid (i.pool.accounts w'.pg) (i.pool.messages w'.pg)
      × Reconciled json (i.pool.accounts w.pg) (i.pool.messages w.pg) (i.pool.accounts w'.pg)
          (i.pool.messages w'.pg)

  pub Step-Explains :
      {w w' : World P M}
      → Step pg c json poller AnyRequest w w'
      → IsValid (i.pool.accounts w.pg) (i.pool.messages w.pg)
      → Explains w w'
  Step-Explains (handle r now w amount) v = (
    process_transaction-IsValid pg i c json r now w amount v,
    process_transaction-Reconciled pg i c json laws r now w amount v.accounts v.range,
  )
  Step-Explains (tick now w) v =
      let (accounts, messages, keeps) =
        (process_pending_messages-Polled poller pg.pool i.pool c j json now w v.outbox).0 in
      (
        IsValid-of_contents _ _ _ _ accounts messages v,
        λ id. grind (
          arith,
          ap (balance_of id) accounts,
          journal_of-contents json id (i.pool.messages w.pg),
          ap (journal_of json id) messages,
          journal_of-contents json id
              (i.pool.messages (process_pending_messages poller pg.pool c json now w).1.pg),
        ),
      )

  -- From valid tables, after any sequence of requests and ticks, whatever the databases answer: the
  -- tables are valid, and of every account the balance less what the messages of the outbox say of
  -- it is what it was at the start.
  pub Run-Explains :
      {w w' : World P M}
      → Run pg c json poller AnyRequest w w'
      → IsValid (i.pool.accounts w.pg) (i.pool.messages w.pg)
      → Explains w w'
  Run-Explains (start w) v = (v, λ id. refl)
  Run-Explains (next {w'} run step) v =
      let (v', r) = Run-Explains run v in
      let (v'', r') = Step-Explains step v' in
      (v'', Reconciled-trans json _ (i.pool.accounts w'.pg) _ _ (i.pool.messages w'.pg) _ r r')
