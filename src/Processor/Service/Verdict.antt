-- ===== src/Processor/Service/Verdict.antt =====
-- The ways in which a request can have been settled when it is acknowledged.
use Prim.Native.String.{◌++◌ as append}
use innoscripta_banking_ledg.Base.{
  ℕ, pos, ◌≤ℤ◌, leb_ℤ, Bool-cases, ◌≡◌, ◌≢◌, ◌⊎◌, inl, inr, refl, true, String, str_eq, some, none,
  List, find?, ◌==◌, arith, eq_iff,
}
use innoscripta_banking_ledg.Domain.Shared.{
  TransactionRequest, TransactionType, deposit, withdrawal, unknown,
}
use innoscripta_banking_ledg.Domain.Error.{
  Error, account_not_found, invalid_currency, invalid_amount, insufficient_funds, errors_is,
}
use innoscripta_banking_ledg.Domain.Result.{Result, ok, err}
use innoscripta_banking_ledg.Domain.Account as AccountModel
use innoscripta_banking_ledg.Domain.Account.{Account}
use innoscripta_banking_ledg.Domain.Ledger.{Entry}
use innoscripta_banking_ledg.Domain.Outbox.{Json, Message}
use innoscripta_banking_ledg.Platform.Postgres.{Postgres, IsPostgres}
use innoscripta_banking_ledg.Platform.Collection.{Collection, IsCollection}
use innoscripta_banking_ledg.Platform.World.{World}
use innoscripta_banking_ledg.Data.LedgerRepository.Writes.{Read}
use innoscripta_banking_ledg.Data.LedgerRepository.Entries.{entry_of}
use innoscripta_banking_ledg.Processor.Validator.{is_known, is_terminal, validate, skip_or_not}
use innoscripta_banking_ledg.Processor.AccountManager.{apply_to_account, change_account}
use innoscripta_banking_ledg.Processor.AccountManager.Outcome.{
  IsTransient, lock_failed, update_failed, conflict, Outcome,
}
use innoscripta_banking_ledg.Processor.FailureRecorder.{record_failure}
use innoscripta_banking_ledg.Processor.Service.{
  validation_reason, currency_mismatch_reason, business_reason,
}
use innoscripta_banking_ledg.Processor.Service.Atomicity.{Untouched, Accepted}

module _ (request : TransactionRequest) where
  -- A deposit or a withdrawal of no positive amount.
  abbrev pub IsBadAmount : String → Type 0
  IsBadAmount reason =
      (reason ≡ "INVALID_AMOUNT")
      × ((request.type ≡ deposit) ⊎ (request.type ≡ withdrawal))
      × (request.amount ≤ℤ pos 0)

  -- What an account may have against the request.
  abbrev pub Refuses : Account → String → Type 0
  Refuses a reason =
      ((reason
          ≡ append "CURRENCY_MISMATCH:_REQUEST_"
              (append request.currency "_ACCOUNT_account_currency"))
        × (a.currency ≢ request.currency))
      ⊎ ((reason ≡ "INSUFFICIENT_FUNDS")
          × (request.type ≡ withdrawal)
          × (a.currency ≡ request.currency)
          × ¬ (request.amount ≤ℤ a.balance))

  -- Why a request fails for good, and the reason that is recorded.
  abbrev pub Cause : List Account → String → Type 0
  Cause rows reason =
      ((reason ≡ "UNKNOWN_ERROR") × ((t : String) × (request.type ≡ unknown t)))
      ⊎ (IsBadAmount reason
          ⊎ (((reason ≡ "ACCOUNT_NOT_FOUND")
                × (find? (λ row. row.id == request.account_id) rows ≡ none))
              ⊎ ((a : Account) × (find? (λ row. row.id == request.account_id) rows ≡ some a)
                  × Refuses a reason)))

  reason_is :
      (x e : Error) (named reason : String)
      → business_reason request x ≡ some named
      → e ≡ x
      → business_reason request e ≡ some reason
      → reason ≡ named
  reason_is x e named reason hx same h = cc

  missing_reason :
      business_reason request (account_not_found request.account_id) ≡ some "ACCOUNT_NOT_FOUND"
  unfolding business_reason errors_is
  missing_reason = ground arith

  currency_reason :
      business_reason request invalid_currency
      ≡ some (
          append "CURRENCY_MISMATCH:_REQUEST_"
            (append request.currency "_ACCOUNT_account_currency"))
  unfolding business_reason errors_is currency_mismatch_reason
  currency_reason = refl

  amount_reason : business_reason request invalid_amount ≡ some "INVALID_AMOUNT"
  unfolding business_reason errors_is
  amount_reason = refl

  funds_reason : business_reason request insufficient_funds ≡ some "INSUFFICIENT_FUNDS"
  unfolding business_reason errors_is
  funds_reason = refl

  deposit_refused :
      (now : ℕ) (a : Account) (e : Error)
      → AccountModel.deposit request.amount now a ≡ err e
      → (e ≡ invalid_amount) × (request.amount ≤ℤ pos 0)
  unfolding AccountModel.deposit
  deposit_refused now a e h = ground arith

  withdraw_refused :
      (now : ℕ) (a : Account) (e : Error)
      → AccountModel.withdraw request.amount now a ≡ err e
      → ((e ≡ invalid_amount) × (request.amount ≤ℤ pos 0))
        ⊎ ((e ≡ insufficient_funds) × ¬ (request.amount ≤ℤ a.balance))
  unfolding AccountModel.withdraw
  withdraw_refused now a e h = elim (Bool-cases (leb_ℤ request.amount (pos 0))) [
    | inl bad ↦ inl (ground arith, ground arith)
    | inr good ↦ inr (ground arith, λ covered. ground arith)
  ]

  -- The type of the request is `type`.
  applied_refusal :
      (now : ℕ) (a : Account) (e : Error) (reason : String) (type : TransactionType)
      → request.type ≡ type
      → is_known type ≡ true
      → a.currency ≡ request.currency
      → apply_to_account request type now a ≡ err e
      → business_reason request e ≡ some reason
      → IsBadAmount reason ⊎ Refuses a reason
  unfolding apply_to_account
  applied_refusal now a e reason deposit is known same h r =
      let (c, bad) = deposit_refused now a e h in
      inl (reason_is invalid_amount e _ reason amount_reason c r, inl is, bad)
  applied_refusal now a e reason withdrawal is known same h r = elim (withdraw_refused now a e h) [
    | inl (c, bad) ↦ inl (reason_is invalid_amount e _ reason amount_reason c r, inr is, bad)
    | inr (c, short) ↦
        inr (inr (reason_is insufficient_funds e _ reason funds_reason c r, is, same, short))
  ]
  applied_refusal now a e reason (unknown t) is known same h r = absurd (ground arith)

  change_refusal :
      (now : ℕ) (a : Account) (e : Error) (reason : String)
      → is_known request.type ≡ true
      → change_account request now a ≡ err e
      → business_reason request e ≡ some reason
      → IsBadAmount reason ⊎ Refuses a reason
  unfolding change_account
  change_refusal now a e reason known h r = elim (Bool-cases (str_eq a.currency request.currency)) [
    | inl same ↦
        applied_refusal now a e reason request.type refl known
          (ground (arith, eq_iff a.currency request.currency)) (ground arith) r
    | inr other ↦ inr (
        inl (
          reason_is invalid_currency e _ reason currency_reason (ground arith) r,
          ground (arith, eq_iff a.currency request.currency),
        ))
  ]

  transient_retried : (e : Error) → IsTransient e → business_reason request e ≡ none
  unfolding business_reason errors_is
  transient_retried _ lock_failed = refl
  transient_retried _ update_failed = refl
  transient_retried _ (conflict id) = refl

  pub Cause-of_Outcome :
      (now : ℕ) (rows rows' : List Account) (e : Error) (reason : String)
      → is_known request.type ≡ true
      → Outcome request now rows rows' (err e)
      → business_reason request e ≡ some reason
      → Cause rows reason
  Cause-of_Outcome now rows rows' e reason known (inl (c, missing)) h =
      inr (inr (inl (reason_is _ e _ reason missing_reason c h, missing)))
  Cause-of_Outcome now rows rows' e reason known (inr (inl (a, found, refused))) h =
      elim (change_refusal now a e reason known refused h) [
        | inl bad ↦ inr (inl bad)
        | inr refuses ↦ inr (inr (inr (a, found, refuses)))
      ]
  Cause-of_Outcome now rows rows' e reason known (inr (inr t)) h =
      ground (arith, transient_retried e t)

  typed-Cause :
      (rows : List Account) (e : Error) (type : TransactionType)
      → request.type ≡ type
      → validate request ≡ err e
      → Cause rows (validation_reason e)
  unfolding validate validation_reason errors_is
  typed-Cause rows e deposit is h = inr (inl (ground arith, inl is, ground arith))
  typed-Cause rows e withdrawal is h = inr (inl (ground arith, inr is, ground arith))
  typed-Cause rows e (unknown t) is h = inl (ground arith, (t, is))

  pub Cause-of_validate :
      (rows : List Account) (e : Error)
      → validate request ≡ err e
      → Cause rows (validation_reason e)
  Cause-of_validate rows e h = typed-Cause rows e request.type refl h

pub terminal_of_skip :
    (entries : List Entry) (id : ℕ) (r : Result Entry)
    → Read id entries r
    → skip_or_not r ≡ ok true
    → (e : Entry) × (entry_of id entries ≡ some e) × (is_terminal e.status ≡ true)
unfolding skip_or_not errors_is
terminal_of_skip entries id (ok existing) found h = (existing, found, ground arith)
terminal_of_skip entries id (err e) (inl (c, missing)) h = absurd (ground arith)
terminal_of_skip entries id (err e) (inr c) h = absurd (ground arith)

module _ {B P X M : Type 0} (pg : Postgres B P X) (i : IsPostgres pg) (c : Collection M)
    (j : IsCollection c) (json : Json B) (request : TransactionRequest) (now : ℕ)
    (rows : List Account) (queue : List (Message B)) (entries : List Entry) where
  -- The tables are untouched, and the failure has been reported to the ledger, with its reason.
  abbrev pub Rejected : World P M → Type 0
  Rejected w =
      Untouched pg i c json request now rows queue w.pg
      × ((reason : String) × Cause request rows reason
          × ((m : M) × (j.entries m ≡ entries)
              × (w.mongo ≡ (record_failure c request reason now m).1)))

  -- Nothing has changed: the ledger had the transaction as COMPLETED or FAILED.
  abbrev pub Skipped : World P M → Type 0
  Skipped w =
      Untouched pg i c json request now rows queue w.pg
      × (j.entries w.mongo ≡ entries)
      × ((e : Entry) × (entry_of request.transaction_id entries ≡ some e)
          × (is_terminal e.status ≡ true))

  abbrev pub Settled : Result (Unit {0}) → World P M → Type 0
  Settled (err _) w = Unit
  Settled (ok _) w =
      Rejected w
      ⊎ (Skipped w
          ⊎ Accepted json request now rows queue (i.pool.accounts w.pg) (i.pool.messages w.pg))

  abbrev pub SettledAt : Result (Unit {0}) × World P M → Type 0
  SettledAt (r, w) = Settled r w
