-- ===== src/Data/LedgerRepository/Answering.antt =====
-- The ledger repository over a MongoDB that answers.
use innoscripta_banking_ledg.Base.{ℕ, String, ◌≡◌, Bool, Option, some, none, arith}
use innoscripta_banking_ledg.Domain.Shared.{TransactionStatus}
use innoscripta_banking_ledg.Domain.Error.{errors_is, entry_not_found}
use innoscripta_banking_ledg.Domain.Result.{ok, err}
use innoscripta_banking_ledg.Domain.Ledger.{Entry}
use innoscripta_banking_ledg.Platform.Reply.{done}
use innoscripta_banking_ledg.Platform.Collection.{Collection, IsCollection}
use innoscripta_banking_ledg.Data.LedgerRepository.{
  has_transaction_id, set_status, get_by_transaction_id, create, create_checked, update_status,
}
use innoscripta_banking_ledg.Data.LedgerRepository.Entries.{entry_of}

-- The calls for one transaction come back with an answer.
pub record Answers {M : Type 0} (c : Collection M) : Type 0 where
  pub find_one_answers :
      (p : Entry → Bool) (m : M) → (o : Option Entry) × ((c.find_one p m).0 ≡ done o)
  pub insert_one_answers : (e : Entry) (m : M) → (c.insert_one e m).0 ≡ done tt
  pub update_one_answers :
      (p : Entry → Bool) (f : Entry → Entry) (m : M) → (n : ℕ) × ((c.update_one p f m).0 ≡ done n)

module _ {M : Type 0} (c : Collection M) (j : IsCollection c) (answers : Answers c) (now : ℕ) where
  pub get_missing :
      (id : ℕ) (m : M)
      → entry_of id (j.entries m) ≡ none
      → (get_by_transaction_id c id m).0 ≡ err (entry_not_found id)
  unfolding get_by_transaction_id
  get_missing id m h = ground (
    arith,
    answers.find_one_answers (has_transaction_id id) m,
    j.find_one_finds (has_transaction_id id) m,
  )

  pub get_found :
      (id : ℕ) (m : M) (e : Entry)
      → entry_of id (j.entries m) ≡ some e
      → (get_by_transaction_id c id m).0 ≡ ok e
  unfolding get_by_transaction_id
  get_found id m e h = ground (
    arith,
    answers.find_one_answers (has_transaction_id id) m,
    j.find_one_finds (has_transaction_id id) m,
  )

  pub update_status_succeeds :
      (id : ℕ) (status : TransactionStatus) (reason : String) (m : M) (e : Entry)
      → entry_of id (j.entries m) ≡ some e
      → (update_status c id status reason now m).0 ≡ ok tt
  unfolding update_status
  update_status_succeeds id status reason m e h = ground (
    arith,
    answers.update_one_answers (has_transaction_id id) (set_status status reason now) m,
    j.update_one_counts (has_transaction_id id) (set_status status reason now) m,
  )

  pub create_succeeds :
      (entry : Entry) (m : M)
      → entry_of entry.transaction_id (j.entries m) ≡ none
      → (create c entry m).0 ≡ ok tt
  unfolding create create_checked errors_is
  create_succeeds entry m h = ground (
    arith,
    get_missing entry.transaction_id m h,
    answers.insert_one_answers entry (get_by_transaction_id c entry.transaction_id m).1,
  )
