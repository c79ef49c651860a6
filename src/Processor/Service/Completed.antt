-- ===== src/Processor/Service/Completed.antt =====
-- The effect of `ProcessTransaction` on the ledger: no transaction that is COMPLETED becomes FAILED,
-- if the request is valid. (The failure of an invalid request is recorded without a look-up of the
-- status that its transaction has.)
use innoscripta_banking_ledg.Base.{
  ℕ, ◌≡◌, inl, inr, refl, sym, ◌∙◌, ap, subst, true, false, Bool, String, Option, some, none, List,
  arith,
}
use innoscripta_banking_ledg.Domain.Shared.{TransactionRequest, completed, failed}
use innoscripta_banking_ledg.Domain.Error.{Error, errors_is}
use innoscripta_banking_ledg.Domain.Result.{Result, ok, err}
use innoscripta_banking_ledg.Domain.Account.{Account}
use innoscripta_banking_ledg.Domain.Ledger.{Entry}
use innoscripta_banking_ledg.Domain.Outbox.{Json}
use innoscripta_banking_ledg.Platform.Reply.{Reply, done, fault}
use innoscripta_banking_ledg.Platform.Postgres.{Postgres}
use innoscripta_banking_ledg.Platform.Collection.{Collection, IsCollection}
use innoscripta_banking_ledg.Platform.World.{World}
use innoscripta_banking_ledg.Data.LedgerRepository.{get_by_transaction_id}
use innoscripta_banking_ledg.Data.LedgerRepository.Writes.{Read, get_by_transaction_id_reads}
use innoscripta_banking_ledg.Data.LedgerRepository.Entries.{entry_of, HasStatus}
use innoscripta_banking_ledg.Processor.Validator.{validate, skip_or_not, check_idempotency}
use innoscripta_banking_ledg.Processor.FailureRecorder.{record_failure}
use innoscripta_banking_ledg.Processor.FailureRecorder.Recording.{record_failure-Sets}
use innoscripta_banking_ledg.Processor.Publisher.Completion.{
  KeepsCompleted, HasStatus-same, Sets-others, KeepsCompleted-of_others,
}
use innoscripta_banking_ledg.Processor.Service.{
  settle, finish, after_outbox, after_update, after_begin, after_check, after_validation,
  business_reason, process_transaction,
}

-- A transaction on which the check lets the processor go on is not COMPLETED.
skip_or_not-open :
    (id : ℕ) (entries : List Entry) (r : Result Entry)
    → Read id entries r
    → skip_or_not r ≡ ok false
    → ¬ HasStatus completed id entries
unfolding skip_or_not errors_is
skip_or_not-open id entries (ok existing) found h (e, at, s) = ground arith
skip_or_not-open id entries (err _) (inl (c, missing)) h (e, at, s) = ground arith
skip_or_not-open id entries (err _) (inr c) h has = ground arith

module _ {B P X M : Type 0} (pg : Postgres B P X) (c : Collection M) (j : IsCollection c)
    (json : Json B) (request : TransactionRequest) (now : ℕ) where
  finish_mongo :
      (r : Reply (Unit {0})) (x : X) (p : P) (m : M) → (finish pg c json r x p m).1.mongo ≡ m
  unfolding finish
  finish_mongo (done _) x p m = refl
  finish_mongo fault x p m = refl

  after_outbox_mongo :
      (r : Result (Unit {0})) (x : X) (p : P) (m : M) → (after_outbox pg c json r x p m).1.mongo ≡ m
  unfolding after_outbox
  after_outbox_mongo (ok _) x p m = finish_mongo _ x _ m
  after_outbox_mongo (err e) x p m = refl

  record_failure_keeps :
      (reason : String) (m : M)
      → ¬ HasStatus completed request.transaction_id (j.entries m)
      → KeepsCompleted (j.entries m) (j.entries (record_failure c request reason now m).1)
  record_failure_keeps reason m to_do =
      KeepsCompleted-of_others request.transaction_id _ _
        (Sets-others failed request.transaction_id _ _ _
          (record_failure-Sets c j request reason now m))
        (λ has. absurd (to_do has))

  settle_keeps :
      (e : Error) (reason : Option String) (m : M)
      → ¬ HasStatus completed request.transaction_id (j.entries m)
      → KeepsCompleted (j.entries m) (j.entries (settle pg c json request now e reason m).1)
  unfolding settle
  settle_keeps e none m to_do = λ t h. h
  settle_keeps e (some reason) m to_do = record_failure_keeps reason m to_do

  after_update_keeps :
      (r : Result Account) (x : X) (p : P) (m : M)
      → ¬ HasStatus completed request.transaction_id (j.entries m)
      → KeepsCompleted
          (j.entries m)
          (j.entries (after_update pg c json request now r x p m).1.mongo)
  unfolding after_update
  after_update_keeps (err e) x p m to_do = settle_keeps e (business_reason request e) m to_do
  after_update_keeps (ok _) x p m to_do =
      subst (λ m'. KeepsCompleted (j.entries m) (j.entries m')) (sym (after_outbox_mongo _ _ p m))
        (λ t h. h)

  after_begin_keeps :
      (r : Reply X) (p : P) (m : M)
      → ¬ HasStatus completed request.transaction_id (j.entries m)
      → KeepsCompleted (j.entries m) (j.entries (after_begin pg c json request now r p m).1.mongo)
  unfolding after_begin
  after_begin_keeps fault p m to_do = λ t h. h
  after_begin_keeps (done x) p m to_do = after_update_keeps _ _ p m to_do

  after_check_keeps :
      (skip : Result Bool) (p : P) (m : M)
      → (skip ≡ ok false → ¬ HasStatus completed request.transaction_id (j.entries m))
      → KeepsCompleted
          (j.entries m)
          (j.entries (after_check pg c json request now skip p m).1.mongo)
  unfolding after_check
  after_check_keeps (err e) p m to_do = λ t h. h
  after_check_keeps (ok true) p m to_do = λ t h. h
  after_check_keeps (ok false) p m to_do = after_begin_keeps _ _ m (to_do refl)

  after_validation_keeps :
      (r : Result (Unit {0})) (w : World P M)
      → r ≡ ok tt
      → KeepsCompleted
          (j.entries w.mongo)
          (j.entries (after_validation pg c json request now r w).1.mongo)
  unfolding after_validation check_idempotency
  after_validation_keeps (err e) w h = ground arith
  after_validation_keeps (ok _) w h =
      let (read, same) = get_by_transaction_id_reads c j request.transaction_id w.mongo in
      let m = (get_by_transaction_id c request.transaction_id w.mongo).1 in
      λ t has.
        after_check_keeps _ w.pg m
          (λ go (e, at, s).
            skip_or_not-open request.transaction_id _ _ read go
              (e, ap (entry_of request.transaction_id) (sym same) ∙ at, s))
          t (HasStatus-same completed t _ _ (ap (entry_of t) same) has)

  -- A valid request leaves every transaction COMPLETED that was, whatever the databases answer.
  pub process_transaction-KeepsCompleted :
      (w : World P M)
      → validate request ≡ ok tt
      → let w' = (process_transaction pg c json request now w).1 in
        KeepsCompleted (j.entries w.mongo) (j.entries w'.mongo)
  unfolding process_transaction
  process_transaction-KeepsCompleted w h = after_validation_keeps (validate request) w h
