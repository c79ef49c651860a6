-- ===== src/Processor/Service/Reconciled.antt =====
-- Every balance is explained by the outbox: a request adds to both the same, or to neither.
use innoscripta_banking_ledg.Base.{
  subst, ℕ, ℤ, pos, ◌+ℤ◌, IsInt64, int_laws, ◌≡◌, inl, inr, refl, sym, ◌∙◌, ap, true, Bool-cases,
  some, List, All, ◌==◌, find?-update_all, find?-update_all_other, arith,
}
use innoscripta_banking_ledg.Domain.Shared.{
  TransactionRequest, TransactionType, deposit, withdrawal, unknown,
}
use innoscripta_banking_ledg.Domain.Account.{Account}
use innoscripta_banking_ledg.Domain.Outbox.{Json, IsJson, Message}
use innoscripta_banking_ledg.Platform.Schema.{accounts_schema}
use innoscripta_banking_ledg.Platform.Postgres.{Postgres, IsPostgres}
use innoscripta_banking_ledg.Platform.Collection.{Collection}
use innoscripta_banking_ledg.Platform.World.{World}
use innoscripta_banking_ledg.Processor.AccountManager.Change.{moved, posted_account}
use innoscripta_banking_ledg.Processor.AccountManager.Posting.{Posting}
use innoscripta_banking_ledg.Processor.OutboxManager.{ledger_entry_for_outbox}
use innoscripta_banking_ledg.Processor.OutboxManager.Queueing.{Queued}
use innoscripta_banking_ledg.Processor.Journal.{
  balance_of, balance_or_zero, effect_on, journal_of, journal_of-append,
}
use innoscripta_banking_ledg.Processor.Service.{process_transaction}
use innoscripta_banking_ledg.Processor.Service.Atomicity.{AllOrNothing, process_transaction_atomic}

moved_from_zero :
    (type : TransactionType) (amount balance : ℤ)
    → moved type amount balance ≡ balance +ℤ moved type amount (pos 0)
moved_from_zero deposit amount balance = grind int_laws
moved_from_zero withdrawal amount balance = grind int_laws
moved_from_zero (unknown _) amount balance = grind int_laws

plus_zero : (z : ℤ) → z ≡ z +ℤ pos 0
plus_zero z = grind int_laws

module _ (request : TransactionRequest) (now : ℕ) where
  Posting-own_balance :
      (before after : List Account) (p : Posting request now before after)
      → balance_of request.account_id after
        ≡ balance_of request.account_id before +ℤ moved request.type request.amount (pos 0)
  Posting-own_balance before after p =
      ap (balance_of request.account_id) p.row
      ∙ ap balance_or_zero (
          find?-update_all (λ (row : Account). row.id) request.account_id
            (posted_account request now) (λ a. refl) before p.account p.found)
      ∙ moved_from_zero request.type request.amount p.account.balance
      ∙ ap (λ z. z +ℤ moved request.type request.amount (pos 0)) (sym (ap balance_or_zero p.found))

  Posting-balance_of :
      (id : ℕ) (before after : List Account)
      → Posting request now before after
      → balance_of id after
        ≡ balance_of id before +ℤ effect_on id (some (ledger_entry_for_outbox request))
  Posting-balance_of id before after p = elim (Bool-cases (id == request.account_id)) [
    | inl here ↦ rw here (
        subst
          (λ k.
            balance_of k after ≡ balance_of k before +ℤ moved request.type request.amount (pos 0))
          (ground arith) (Posting-own_balance before after p))
    | inr there ↦ rw there (
        ap (balance_of id) p.row
        ∙ ap balance_or_zero (
            find?-update_all_other (λ (row : Account). row.id) request.account_id
              (posted_account request now) (λ a. refl) id there before)
        ∙ plus_zero (balance_of id before))
  ]

  Queued-journal_of :
      {B : Type 0} (json : Json B)
      → IsJson json
      → (id : ℕ) (before after : List (Message B)) → Queued json request now before after
      → journal_of json id after
        ≡ journal_of json id before +ℤ effect_on id (some (ledger_entry_for_outbox request))
  Queued-journal_of json laws id before after q =
      ap (journal_of json id) q.row
      ∙ journal_of-append json id before _
      ∙ ap (λ o. journal_of json id before +ℤ effect_on id o) (laws.round_trip _ _ q.marshalled)

-- Balances and journal of the outbox move together.
abbrev pub Reconciled :
    {B : Type 0}
    → Json B
    → List Account
    → List (Message B)
    → List Account
    → List (Message B)
    → Type 0
Reconciled json rows queue rows' queue' =
    (id : ℕ)
    → balance_of id rows' +ℤ journal_of json id queue
      ≡ balance_of id rows +ℤ journal_of json id queue'

pub AllOrNothing-Reconciled :
    {B P X : Type 0} (pg : Postgres B P X) (i : IsPostgres pg) (json : Json B) (laws : IsJson json)
    (request : TransactionRequest) (now : ℕ) (rows : List Account) (queue : List (Message B))
    (p : P)
    → AllOrNothing json request now i rows queue p
    → Reconciled json rows queue (i.pool.accounts p) (i.pool.messages p)
AllOrNothing-Reconciled pg i json laws request now rows queue p (inl (same, same')) id =
    grind (arith, ap (balance_of id) same, ap (journal_of json id) same')
AllOrNothing-Reconciled pg i json laws request now rows queue p (inr (posting, queued)) id = grind (
  int_laws,
  Posting-balance_of request now id _ _ posting,
  Queued-journal_of request now json laws id _ _ queued,
)

-- Of every account: the balance less what the messages of the outbox say of it is afterwards what it
-- was before. This holds from tables that satisfy their constraints and hold 64-bit balances, for a
-- 64-bit amount, whatever the databases answer.
pub process_transaction-Reconciled :
    {B P X M : Type 0} (pg : Postgres B P X) (i : IsPostgres pg) (c : Collection M) (json : Json B)
    (laws : IsJson json) (request : TransactionRequest) (now : ℕ) (w : World P M)
    → IsInt64 request.amount
    → accounts_schema (i.pool.accounts w.pg) ≡ true
    → All (λ row. IsInt64 row.balance) (i.pool.accounts w.pg)
    → let w' = (process_transaction pg c json request now w).1 in
      Reconciled json
        (i.pool.accounts w.pg)
        (i.pool.messages w.pg)
        (i.pool.accounts w'.pg)
        (i.pool.messages w'.pg)
process_transaction-Reconciled pg i c json laws request now w amount valid range =
    AllOrNothing-Reconciled pg i json laws request now _ _ _
      (process_transaction_atomic pg i c json request now w amount valid range)
