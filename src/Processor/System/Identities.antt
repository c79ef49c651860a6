-- ===== src/Processor/System/Identities.antt =====
-- No step of the processor opens or closes an account.
use innoscripta_banking_ledg.Base.{
  ℕ, ◌≡◌, inl, inr, refl, ◌∙◌, ap, Bool, List, [], ◌∷◌, map, update_all, ◌==◌, arith,
}
use innoscripta_banking_ledg.Domain.Account.{Account}
use innoscripta_banking_ledg.Domain.Outbox.{Json}
use innoscripta_banking_ledg.Platform.Postgres.{Postgres, IsPostgres}
use innoscripta_banking_ledg.Platform.Collection.{Collection, IsCollection}
use innoscripta_banking_ledg.Platform.World.{World}
use innoscripta_banking_ledg.Processor.AccountManager.Change.{posted_account}
use innoscripta_banking_ledg.Processor.Poller.{Poller}
use innoscripta_banking_ledg.Processor.Poller.Polling.{process_pending_messages-Polled}
use innoscripta_banking_ledg.Processor.Service.Atomicity.{process_transaction_atomic}
use innoscripta_banking_ledg.Processor.Service.Validity.{IsValid}
use innoscripta_banking_ledg.Processor.System.{Step, handle, tick}
use innoscripta_banking_ledg.Processor.System.Reconciliation.{AnyRequest}

abbrev pub ids : List Account → List ℕ
ids rows = map (λ row. row.id) rows

ids-update_all :
    (p : Account → Bool) (g : Account → Account)
    → ((a : Account) → (g a).id ≡ a.id)
    → (rows : List Account) → ids (update_all p g rows) ≡ ids rows
ids-update_all p g same [] = refl
ids-update_all p g same (row ∷ rows) = ground (arith, same row, ids-update_all p g same rows)

pub Step-ids :
    {B P X M : Type 0} (pg : Postgres B P X) (i : IsPostgres pg) (c : Collection M)
    (j : IsCollection c) (json : Json B) (poller : Poller) {w w' : World P M}
    → Step pg c json poller AnyRequest w w'
    → IsValid (i.pool.accounts w.pg) (i.pool.messages w.pg)
    → ids (i.pool.accounts w'.pg) ≡ ids (i.pool.accounts w.pg)
Step-ids pg i c j json poller (handle r now w amount) v =
    elim (process_transaction_atomic pg i c json r now w amount v.accounts v.range) [
      | inl (rows, _) ↦ ap ids rows
      | inr (posting, _) ↦
          ap ids posting.row
          ∙ ids-update_all (λ row. row.id == r.account_id) (posted_account r now) (λ a. refl)
              (i.pool.accounts w.pg)
    ]
Step-ids pg i c j json poller (tick now w) v =
    ap ids (process_pending_messages-Polled poller pg.pool i.pool c j json now w v.outbox).0.0
