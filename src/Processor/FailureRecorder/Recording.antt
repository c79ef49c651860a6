-- ===== src/Processor/FailureRecorder/Recording.antt =====
-- What `RecordFailure` leaves in the ledger.
use innoscripta_banking_ledg.Base.{
  ℕ, String, ◌≡◌, inl, inr, subst, true, Bool-cases, ◌∙◌, List, arith, ap,
}
use innoscripta_banking_ledg.Domain.Shared.{TransactionRequest, TransactionStatus, failed}
use innoscripta_banking_ledg.Domain.Result.{Result, ok, err}
use innoscripta_banking_ledg.Domain.Ledger.{Entry}
use innoscripta_banking_ledg.Platform.Collection.{Collection, IsCollection}
use innoscripta_banking_ledg.Data.LedgerRepository.{update_status, create}
use innoscripta_banking_ledg.Data.LedgerRepository.Writes.{
  Read, get_by_transaction_id_reads, create_writes, update_status_writes,
}
use innoscripta_banking_ledg.Data.LedgerRepository.Entries.{
  entry_of, same_others, Sets, Created-Sets, StatusSet-Sets,
}
use innoscripta_banking_ledg.Processor.FailureRecorder.{
  failed_entry, is_failed, record_over, record_failure,
}

is_failed→eq : (s : TransactionStatus) → is_failed s ≡ true → s ≡ failed
is_failed→eq s h = ground arith

module _ {M : Type 0} (c : Collection M) (i : IsCollection c) (request : TransactionRequest)
    (reason : String) (now : ℕ) where
  record_over-Sets :
      (before : List Entry) (m : M)
      → i.entries m ≡ before
      → (r : Result Entry) → Read request.transaction_id before r
      → let (r', m') = record_over c request reason now r m in
        Sets failed request.transaction_id before (i.entries m') r'
  unfolding record_over
  record_over-Sets before m same (ok existing) found =
      elim (Bool-cases (is_failed existing.status)) [
        | inl done_before ↦ rw done_before (
          (
            existing,
            ap (entry_of request.transaction_id) same ∙ found,
            is_failed→eq existing.status done_before,
          ),
          same_others request.transaction_id before _ same,
        )
        | inr to_do ↦ rw to_do (
            subst
              (λ l.
                Sets failed request.transaction_id l
                  (i.entries (update_status c request.transaction_id failed reason now m).1)
                  (update_status c request.transaction_id failed reason now m).0)
              same
              (StatusSet-Sets request.transaction_id failed reason now _ _ _
                (update_status_writes c i request.transaction_id failed reason now m)))
      ]
  record_over-Sets before m same (err e) _ =
      subst
        (λ l.
          Sets failed request.transaction_id l
            (i.entries (create c (failed_entry request reason now) m).1)
            (create c (failed_entry request reason now) m).0)
        same
        (Created-Sets (failed_entry request reason now) _ _ _
          (create_writes c i (failed_entry request reason now) m))

  -- Whatever the ledger held and whatever MongoDB answers: if recording a failure succeeds, the
  -- transaction has an entry and its status is FAILED; and no other transaction is found otherwise
  -- than before, also if it does not succeed.
  pub record_failure-Sets :
      (m : M)
      → let (r, m') = record_failure c request reason now m in
        Sets failed request.transaction_id (i.entries m) (i.entries m') r
  unfolding record_failure
  record_failure-Sets m =
      let (read, same) = get_by_transaction_id_reads c i request.transaction_id m in
      record_over-Sets (i.entries m) _ same _ read
