-- ===== src/Data/LedgerRepository/Entries.antt =====
-- The ledger as it is searched: one entry, or none, for each transaction.
use innoscripta_banking_ledg.Base.{
  ℕ, String, ◌≡◌, ◌≢◌, inl, inr, refl, ◌∙◌, ap, some, Option, Option-cases, List, [], ◌∷◌, ◌++◌,
  find?, find?-passes, update_first, find?-update_first, find?-update_first_other, find?-append_new,
  find?-append_other, arith,
}
use innoscripta_banking_ledg.Domain.Shared.{TransactionStatus}
use innoscripta_banking_ledg.Domain.Result.{Result, ok, err}
use innoscripta_banking_ledg.Domain.Ledger.{Entry}
use innoscripta_banking_ledg.Data.LedgerRepository.{has_transaction_id, set_status}
use innoscripta_banking_ledg.Data.LedgerRepository.Writes.{Created, StatusSet}

abbrev pub entry_of : ℕ → List Entry → Option Entry
entry_of id entries = find? (has_transaction_id id) entries

-- There is an entry, and its status is the one given.
abbrev pub HasStatus : TransactionStatus → ℕ → List Entry → Type 0
HasStatus status id entries = (e : Entry) × (entry_of id entries ≡ some e) × (e.status ≡ status)

-- The other transactions are found as before.
abbrev pub SameOthers : ℕ → List Entry → List Entry → Type 0
SameOthers id before after = (j : ℕ) → j ≢ id → entry_of j after ≡ entry_of j before

pub same_others : (id : ℕ) (before after : List Entry) → after ≡ before → SameOthers id before after
same_others id before after e j ne = ap (entry_of j) e

appended_others :
    (entry : Entry) (before after : List Entry)
    → after ≡ before ++ entry ∷ []
    → SameOthers entry.transaction_id before after
appended_others entry before after e j ne =
    ap (entry_of j) e ∙ find?-append_other (has_transaction_id j) before entry (ground arith)

status_others :
    (id : ℕ) (status : TransactionStatus) (reason : String) (now : ℕ) (before after : List Entry)
    → after ≡ update_first (has_transaction_id id) (set_status status reason now) before
    → SameOthers id before after
status_others id status reason now before after e j ne =
    ap (entry_of j) e
    ∙ find?-update_first_other (has_transaction_id id) (set_status status reason now)
        (has_transaction_id j) (λ x h. ground arith) (λ x h. ground arith) before

-- What a call that writes one transaction says of it, and of the others.
abbrev pub Sets : TransactionStatus → ℕ → List Entry → List Entry → Result (Unit {0}) → Type 0
Sets status id before after (ok _) = HasStatus status id after × SameOthers id before after
Sets status id before after (err _) = SameOthers id before after

pub Created-Sets :
    (entry : Entry) (before after : List Entry) (r : Result (Unit {0}))
    → Created entry before after r
    → Sets entry.status entry.transaction_id before after r
Created-Sets entry before after (ok _) (row, missing) = (
  (
    entry,
    ap (entry_of entry.transaction_id) row
        ∙ find?-append_new (has_transaction_id entry.transaction_id) before entry missing
            (ground arith),
    refl,
  ),
  appended_others entry before after row,
)
Created-Sets entry before after (err e) (inl (_, _, same)) = same_others _ before after same
Created-Sets entry before after (err e) (inr (inl same, _)) = same_others _ before after same
Created-Sets entry before after (err e) (inr (inr (row, _), _)) =
    appended_others entry before after row

pub StatusSet-Sets :
    (id : ℕ) (status : TransactionStatus) (reason : String) (now : ℕ) (before after : List Entry)
    (r : Result (Unit {0}))
    → StatusSet id status reason now before after r
    → Sets status id before after r
StatusSet-Sets id status reason now before after (ok _) (row, present) =
    elim (Option-cases (entry_of id before)) [
      | inl missing ↦ absurd (present missing)
      | inr (e, found) ↦ (
        (
          set_status status reason now e,
          ap (entry_of id) row
              ∙ find?-update_first (has_transaction_id id) (set_status status reason now) before e
                  found (find?-passes (has_transaction_id id) before e found),
          refl,
        ),
        status_others id status reason now before after row,
      )
    ]
StatusSet-Sets id status reason now before after (err e) (inl (_, _, same)) =
    same_others id before after same
StatusSet-Sets id status reason now before after (err e) (inr (_, inl same)) =
    same_others id before after same
StatusSet-Sets id status reason now before after (err e) (inr (_, inr row)) =
    status_others id status reason now before after row
