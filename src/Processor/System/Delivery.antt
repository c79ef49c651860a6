-- ===== src/Processor/System/Delivery.antt =====
-- Any run of valid requests keeps outbox and ledger in step.
use innoscripta_banking_ledg.Base.{
  ℕ, IsInt64, ◌≡◌, inl, inr, sym, subst, List, [], ◌∷◌, ◌++◌, All, arith,
}
use innoscripta_banking_ledg.Domain.Shared.{TransactionRequest}
use innoscripta_banking_ledg.Domain.Result.{ok}
use innoscripta_banking_ledg.Domain.Ledger.{Entry}
use innoscripta_banking_ledg.Domain.Outbox.{Json, Message}
use innoscripta_banking_ledg.Platform.Postgres.{Postgres, IsPostgres}
use innoscripta_banking_ledg.Platform.Collection.{Collection, IsCollection}
use innoscripta_banking_ledg.Platform.World.{World}
use innoscripta_banking_ledg.Processor.Validator.{validate}
use innoscripta_banking_ledg.Processor.Poller.{Poller}
use innoscripta_banking_ledg.Processor.Poller.Delivered.{
  IsDelivered, Delivered, Delivered-mono, AllDelivered,
}
use innoscripta_banking_ledg.Processor.Poller.Polling.{process_pending_messages-Polled}
use innoscripta_banking_ledg.Processor.OutboxManager.Queueing.{Queued}
use innoscripta_banking_ledg.Processor.Service.Atomicity.{process_transaction_atomic}
use innoscripta_banking_ledg.Processor.Service.Completed.{process_transaction-KeepsCompleted}
use innoscripta_banking_ledg.Processor.Service.Validity.{IsValid, process_transaction-IsValid}
use innoscripta_banking_ledg.Processor.System.{Step, handle, tick, Run, start, next}
use innoscripta_banking_ledg.Processor.System.Reconciliation.{IsValid-of_contents}

-- A request that passes the validator.
abbrev pub ValidRequest : TransactionRequest → Type 0
ValidRequest r = IsInt64 r.amount × (validate r ≡ ok tt)

pub All-append {ℓ κ} :
    {A : Type ℓ} (P : A → Type κ) (xs : List A) (a : A) → All P xs → P a → All P (xs ++ a ∷ [])
All-append P [] a all pa = (pa, tt)
All-append P (x ∷ xs) a (px, all) pa = (px, All-append P xs a all pa)

-- A message that has just been queued is not marked as processed.
Delivered-Queued :
    {B : Type 0} (json : Json B) (r : TransactionRequest) (now : ℕ) (entries : List Entry)
    (before after : List (Message B))
    → Queued json r now before after
    → Delivered json entries before
    → Delivered json entries after
Delivered-Queued json r now entries before after q d =
    subst (Delivered json entries) (sym q.row)
      (All-append (IsDelivered json entries) before _ d (λ s. ground arith))

module _ {B P X M : Type 0} (pg : Postgres B P X) (i : IsPostgres pg) (c : Collection M)
    (j : IsCollection c) (json : Json B) (poller : Poller) where
  -- The tables are valid, and every message that is marked as processed has been delivered.
  abbrev pub InStep : World P M → Type 0
  InStep w = IsValid (i.pool.accounts w.pg) (i.pool.messages w.pg) × AllDelivered i.pool j json w

  pub Step-InStep :
      {w w' : World P M} → Step pg c json poller ValidRequest w w' → InStep w → InStep w'
  Step-InStep (handle r now w (amount, valid)) (v, d) = (
    process_transaction-IsValid pg i c json r now w amount v,
    (let d' =
          Delivered-mono json _ _ (i.pool.messages w.pg)
            (process_transaction-KeepsCompleted pg c j json r now w valid) d in
        elim (process_transaction_atomic pg i c json r now w amount v.accounts v.range) [
          | inl (_, queue) ↦ subst (Delivered json _) (sym queue) d'
          | inr (_, queued) ↦ Delivered-Queued json r now _ _ _ queued d'
        ]),
  )
  Step-InStep (tick now w) (v, d) =
      let (polled, keeps) =
        process_pending_messages-Polled poller pg.pool i.pool c j json now w v.outbox in
      (IsValid-of_contents _ _ _ _ polled.0 polled.1 v, keeps d)

  -- After any sequence of ticks and of requests that pass the validator, whatever the databases
  -- answer: if the tables were valid and the transaction of every message that was marked as
  -- processed was COMPLETED in the ledger, both are so again.
  pub Run-InStep :
      {w w' : World P M} → Run pg c json poller ValidRequest w w' → InStep w → InStep w'
  Run-InStep (start w) h = h
  Run-InStep (next run step) h = Step-InStep step (Run-InStep run h)
