-- ===== src/Data/LedgerRepository/Uniqueness.antt =====
-- The collection has no unique index; the repository itself keeps one entry for each transaction, as
-- long as its calls follow one another.
use innoscripta_banking_ledg.Base.{
  ℕ, String, ◌≡◌, inl, inr, refl, sym, subst, true, Bool, not, none, List, [], ◌∷◌, ◌++◌, ◌==◌,
  find?, all_of, distinct, update_first, arith,
}
use innoscripta_banking_ledg.Domain.Shared.{TransactionStatus}
use innoscripta_banking_ledg.Domain.Result.{Result, ok, err}
use innoscripta_banking_ledg.Domain.Ledger.{Entry}
use innoscripta_banking_ledg.Platform.Collection.{Collection, IsCollection}
use innoscripta_banking_ledg.Data.LedgerRepository.{
  has_transaction_id, set_status, create, update_status,
}
use innoscripta_banking_ledg.Data.LedgerRepository.Writes.{
  Created, StatusSet, create_writes, update_status_writes,
}

-- No two entries of the same transaction.
abbrev pub OnePerTransaction : List Entry → Type 0
OnePerTransaction entries = distinct (λ a b. a.transaction_id == b.transaction_id) entries ≡ true

all_of-append :
    (p : Entry → Bool) (xs : List Entry) (a : Entry)
    → all_of p xs ≡ true
    → p a ≡ true
    → all_of p (xs ++ a ∷ []) ≡ true
all_of-append p [] a h e = ground arith
all_of-append p (x ∷ xs) a h e = ground (arith, all_of-append p xs a)

distinct-append :
    (xs : List Entry) (a : Entry)
    → OnePerTransaction xs
    → find? (has_transaction_id a.transaction_id) xs ≡ none
    → OnePerTransaction (xs ++ a ∷ [])
distinct-append [] a d h = refl
distinct-append (x ∷ xs) a d h = ground (
  arith,
  distinct-append xs a,
  all_of-append (λ y. not (x.transaction_id == y.transaction_id)) xs a,
)

all_of-update_first :
    (p q : Entry → Bool) (f : Entry → Entry)
    → ((e : Entry) → q (f e) ≡ q e)
    → (xs : List Entry) → all_of q (update_first p f xs) ≡ all_of q xs
all_of-update_first p q f same [] = refl
all_of-update_first p q f same (x ∷ xs) = ground (arith, same x, all_of-update_first p q f same xs)

distinct-update_first :
    (p : Entry → Bool) (f : Entry → Entry)
    → ((e : Entry) → (f e).transaction_id ≡ e.transaction_id)
    → (xs : List Entry) → OnePerTransaction xs
    → OnePerTransaction (update_first p f xs)
distinct-update_first p f same [] d = refl
distinct-update_first p f same (x ∷ xs) d = ground (
  arith,
  same x,
  distinct-update_first p f same xs,
  all_of-update_first p (λ y. not (x.transaction_id == y.transaction_id)) f
      (λ e. ground (arith, same e)) xs,
)

Created-unique :
    (entry : Entry) (before after : List Entry) (r : Result (Unit {0}))
    → Created entry before after r
    → OnePerTransaction before
    → OnePerTransaction after
Created-unique entry before after (ok _) (row, missing) d =
    subst OnePerTransaction (sym row) (distinct-append before entry d missing)
Created-unique entry before after (err _) (inl (_, _, same)) d =
    subst OnePerTransaction (sym same) d
Created-unique entry before after (err _) (inr (inl same, _)) d =
    subst OnePerTransaction (sym same) d
Created-unique entry before after (err _) (inr (inr (row, missing), _)) d =
    subst OnePerTransaction (sym row) (distinct-append before entry d missing)

StatusSet-unique :
    (id : ℕ) (status : TransactionStatus) (reason : String) (now : ℕ) (before after : List Entry)
    (r : Result (Unit {0}))
    → StatusSet id status reason now before after r
    → OnePerTransaction before
    → OnePerTransaction after
StatusSet-unique id status reason now before after (ok _) (row, _) d =
    subst OnePerTransaction (sym row) (
      distinct-update_first (has_transaction_id id) (set_status status reason now) (λ e. refl)
        before d)
StatusSet-unique id status reason now before after (err _) (inl (_, _, same)) d =
    subst OnePerTransaction (sym same) d
StatusSet-unique id status reason now before after (err _) (inr (_, inl same)) d =
    subst OnePerTransaction (sym same) d
StatusSet-unique id status reason now before after (err _) (inr (_, inr row)) d =
    subst OnePerTransaction (sym row) (
      distinct-update_first (has_transaction_id id) (set_status status reason now) (λ e. refl)
        before d)

-- Whatever MongoDB answers: `Create` and `UpdateStatus` leave one entry for each transaction where
-- there was one.
pub ledger_writes_unique :
    {M : Type 0} (c : Collection M) (i : IsCollection c) (entry : Entry) (id : ℕ)
    (status : TransactionStatus) (reason : String) (now : ℕ) (m : M)
    → OnePerTransaction (i.entries m)
    → OnePerTransaction (i.entries (create c entry m).1)
      × OnePerTransaction (i.entries (update_status c id status reason now m).1)
ledger_writes_unique c i entry id status reason now m d = (
  Created-unique entry (i.entries m) _ _ (create_writes c i entry m) d,
  StatusSet-unique id status reason now (i.entries m) _ _
      (update_status_writes c i id status reason now m) d,
)
