-- ===== src/Processor/Journal.antt =====
-- The outbox as a journal: what the entries in its messages say of each account.
use innoscripta_banking_ledg.Base.{
  ℕ, ℤ, pos, ◌+ℤ◌, int_laws, ◌≡◌, refl, ap, Option, some, none, List, [], ◌∷◌, ◌++◌, ◌==◌, find?,
  if◌then◌else◌,
}
use innoscripta_banking_ledg.Domain.Account.{Account}
use innoscripta_banking_ledg.Domain.Ledger.{Entry}
use innoscripta_banking_ledg.Domain.Outbox.{Json, Message}
use innoscripta_banking_ledg.Domain.Outbox.Content.{contents}
use innoscripta_banking_ledg.Processor.AccountManager.Change.{moved}

-- The balance of the account found.
abbrev pub balance_or_zero : Option Account → ℤ
balance_or_zero none = pos 0
balance_or_zero (some a) = a.balance

-- The balance of an account, 0 if there is none.
abbrev pub balance_of : ℕ → List Account → ℤ
balance_of id rows = balance_or_zero (find? (λ row. row.id == id) rows)

-- What an entry adds to the balance of an account.
abbrev pub effect_on : ℕ → Option Entry → ℤ
effect_on id none = pos 0
effect_on id (some e) = if id == e.account_id then moved e.type e.amount (pos 0) else pos 0

module _ {B : Type 0} (json : Json B) where
  -- What the messages add to the balance of an account, all in all.
  unfoldable pub journal_of : ℕ → List (Message B) → ℤ
  journal_of id [] = pos 0
  journal_of id (m ∷ queue) = effect_on id (json.unmarshal m.payload) +ℤ journal_of id queue

  pub journal_of-append :
      (id : ℕ) (queue : List (Message B)) (m : Message B)
      → journal_of id (queue ++ m ∷ [])
        ≡ journal_of id queue +ℤ effect_on id (json.unmarshal m.payload)
  unfolding journal_of
  journal_of-append id [] m = grind int_laws
  journal_of-append id (x ∷ queue) m = grind (int_laws, journal_of-append id queue m)

  pub journal_of-contents :
      (id : ℕ) (queue : List (Message B)) → journal_of id (contents queue) ≡ journal_of id queue
  unfolding journal_of
  journal_of-contents id [] = refl
  journal_of-contents id (m ∷ queue) =
      ap (λ z. effect_on id (json.unmarshal m.payload) +ℤ z) (journal_of-contents id queue)
