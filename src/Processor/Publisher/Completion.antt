-- ===== src/Processor/Publisher/Completion.antt =====
-- What publishing an entry does to the ledger: its transaction becomes COMPLETED, and no transaction
-- that is COMPLETED ceases to be.
use innoscripta_banking_ledg.Base.{
  ℕ, ◌≡◌, inl, inr, refl, sym, ◌∙◌, ap, subst, true, false, some, none, Bool-cases, List, ◌==◌,
  arith,
}
use innoscripta_banking_ledg.Domain.Shared.{TransactionStatus, completed}
use innoscripta_banking_ledg.Domain.Error.{errors_is}
use innoscripta_banking_ledg.Domain.Result.{Result, ok, err}
use innoscripta_banking_ledg.Domain.Ledger.{Entry}
use innoscripta_banking_ledg.Platform.Collection.{Collection, IsCollection}
use innoscripta_banking_ledg.Data.LedgerRepository.{get_by_transaction_id, update_status, create}
use innoscripta_banking_ledg.Data.LedgerRepository.Writes.{
  Read, get_by_transaction_id_reads, create_writes, update_status_writes,
}
use innoscripta_banking_ledg.Data.LedgerRepository.Entries.{
  entry_of, HasStatus, SameOthers, same_others, Sets, Created-Sets, StatusSet-Sets,
}
use innoscripta_banking_ledg.Processor.Publisher.{
  is_completed, completed_entry, wrap_error, write_entry, publish_entry,
}

-- What was COMPLETED still is.
abbrev pub KeepsCompleted : List Entry → List Entry → Type 0
KeepsCompleted before after = (j : ℕ) → HasStatus completed j before → HasStatus completed j after

abbrev pub Completes : ℕ → List Entry → List Entry → Result (Unit {0}) → Type 0
Completes id before after r = Sets completed id before after r × KeepsCompleted before after

is_completed→eq : (s : TransactionStatus) → is_completed s ≡ true → s ≡ completed
is_completed→eq s h = ground arith

is_completed_refl : (s : TransactionStatus) → s ≡ completed → is_completed s ≡ true
is_completed_refl s h = ground arith

pub HasStatus-same :
    (status : TransactionStatus) (j : ℕ) (before after : List Entry)
    → entry_of j after ≡ entry_of j before
    → HasStatus status j before
    → HasStatus status j after
HasStatus-same status j before after same (e, found, s) = (e, same ∙ found, s)

-- Where the one transaction that changes was not COMPLETED, nothing is lost.
pub KeepsCompleted-of_others :
    (id : ℕ) (before after : List Entry)
    → SameOthers id before after
    → (HasStatus completed id before → HasStatus completed id after)
    → KeepsCompleted before after
KeepsCompleted-of_others id before after others same j h = elim (Bool-cases (j == id)) [
  | inl here ↦
      subst (λ k. HasStatus completed k after) (sym (ground arith))
        (same (subst (λ k. HasStatus completed k before) (ground arith) h))
  | inr there ↦ HasStatus-same completed j before after (others j (λ e. ground arith)) h
]

pub Sets-others :
    (status : TransactionStatus) (id : ℕ) (before after : List Entry) (r : Result (Unit {0}))
    → Sets status id before after r
    → SameOthers id before after
Sets-others status id before after (ok _) (_, others) = others
Sets-others status id before after (err _) others = others

Sets-wrap_error :
    (status : TransactionStatus) (id : ℕ) (before after : List Entry) (r : Result (Unit {0}))
    → Sets status id before after r
    → Sets status id before after (wrap_error r)
Sets-wrap_error status id before after (ok _) s = s
Sets-wrap_error status id before after (err _) s = s

-- A write to a transaction that was not COMPLETED.
Completes-of_Sets :
    (id : ℕ) (before after : List Entry) (r : Result (Unit {0}))
    → (HasStatus completed id before → HasStatus completed id after)
    → Sets completed id before after r
    → Completes id before after (wrap_error r)
Completes-of_Sets id before after r same s = (
  Sets-wrap_error completed id before after r s,
  KeepsCompleted-of_others id before after (Sets-others completed id before after r s) same,
)

module _ {M : Type 0} (c : Collection M) (i : IsCollection c) (now : ℕ) where
  update-Completes :
      (id : ℕ) (existing : Entry) (m : M)
      → entry_of id (i.entries m) ≡ some existing
      → is_completed existing.status ≡ false
      → let (r, m') = update_status c id completed "" now m in
        Completes id (i.entries m) (i.entries m') (wrap_error r)
  update-Completes id existing m found to_do =
      Completes-of_Sets id _ _ _
        (λ (e, at, s). absurd (ground (arith, is_completed_refl e.status s)))
        (StatusSet-Sets id completed "" now _ _ _ (update_status_writes c i id completed "" now m))

  create-Completes :
      (entry : Entry) (m : M)
      → entry.status ≡ completed
      → entry_of entry.transaction_id (i.entries m) ≡ none
      → let (r, m') = create c entry m in
        Completes entry.transaction_id (i.entries m) (i.entries m') (wrap_error r)
  create-Completes entry m s missing =
      Completes-of_Sets entry.transaction_id _ _ _ (λ (e, at, _). absurd (ground arith))
        (subst
          (λ status.
            Sets status entry.transaction_id (i.entries m) (i.entries (create c entry m).1)
              (create c entry m).0)
          s (Created-Sets entry _ _ _ (create_writes c i entry m)))

  unchanged-Completes :
      (id : ℕ) (before after : List Entry) (existing : Entry)
      → after ≡ before
      → entry_of id before ≡ some existing
      → is_completed existing.status ≡ true
      → Completes id before after (ok tt)
  unchanged-Completes id before after existing same found done_before = (
    (
      (existing, ap (entry_of id) same ∙ found, is_completed→eq existing.status done_before),
      same_others id before after same,
    ),
    λ j. HasStatus-same completed j before after (ap (entry_of j) same),
  )

  write_entry-Completes :
      (entry : Entry) (m : M)
      → entry.status ≡ completed
      → (r : Result Entry) → Read entry.transaction_id (i.entries m) r
      → let (r', m') = write_entry c entry now r m in
        Completes entry.transaction_id (i.entries m) (i.entries m') r'
  unfolding write_entry errors_is
  write_entry-Completes entry m s (ok existing) found =
      elim (Bool-cases (is_completed existing.status)) [
        | inl done_before ↦
            rw done_before
              (unchanged-Completes entry.transaction_id _ _ existing refl found done_before)
        | inr to_do ↦ rw to_do (update-Completes entry.transaction_id existing m found to_do)
      ]
  write_entry-Completes entry m s (err e) (inl (c, missing)) =
      rw c (create-Completes entry m s missing)
  write_entry-Completes entry m s (err e) (inr c) = rw c (same_others _ _ _ refl, λ j h. h)

  pub publish_entry-Completes :
      (entry : Entry) (m : M)
      → let (r, m') = publish_entry c (completed_entry now entry) now m in
        Completes entry.transaction_id (i.entries m) (i.entries m') r
  unfolding publish_entry
  publish_entry-Completes entry m =
      let (read, same) = get_by_transaction_id_reads c i entry.transaction_id m in
      let m' = (get_by_transaction_id c entry.transaction_id m).1 in
      subst
        (λ l.
          Completes entry.transaction_id l
            (i.entries (publish_entry c (completed_entry now entry) now m).1)
            (publish_entry c (completed_entry now entry) now m).0)
        same
        (write_entry-Completes (completed_entry now entry) m' refl _ (
          subst
            (λ l. Read entry.transaction_id l (get_by_transaction_id c entry.transaction_id m).0)
            (sym same) read))
