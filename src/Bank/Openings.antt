-- ===== src/Bank/Openings.antt =====
-- Accounts that have been opened in the meantime, and what they do to the balances and their sums.
use innoscripta_banking_ledg.Base.{
  ℕ, ℤ, pos, ◌+ℤ◌, int_laws, ◌≡◌, inl, inr, sym, ◌∙◌, ap, subst, true, Bool-cases, List, [], ◌∷◌,
  ◌++◌, ◌==◌, All, find?_of_append, find?-append_new, find?-append_other, if◌then◌else◌, arith,
  pos_part, neg_part,
}
use mathlib.Core.List.{append_assoc, append-nil, map-append}
use innoscripta_banking_ledg.Domain.Account.{Account}
use innoscripta_banking_ledg.Domain.Outbox.{Json, Message}
use innoscripta_banking_ledg.Platform.Schema.{accounts_schema}
use innoscripta_banking_ledg.Gateway.AccountService.Creation.{Inserted}
use innoscripta_banking_ledg.Gateway.AccountHandler.Opening.{IsNewAccount}
use innoscripta_banking_ledg.Processor.Journal.{balance_of, balance_or_zero, journal_of}
use innoscripta_banking_ledg.Processor.Service.Reconciled.{Reconciled}
use innoscripta_banking_ledg.Processor.System.Identities.{ids}
use innoscripta_banking_ledg.Processor.System.Delivery.{All-append}

-- What an account that has been opened starts with, seen from an ID.
abbrev pub opened_with : ℕ → Account → ℤ
opened_with id acc = if acc.id == id then acc.balance else pos 0

-- What has been paid in at the opening of an account, all in all.
unfoldable pub opening_of : ℕ → List Account → ℤ
opening_of id [] = pos 0
opening_of id (acc ∷ opened) = opened_with id acc +ℤ opening_of id opened

pub opening_of-append :
    (id : ℕ) (opened : List Account) (acc : Account)
    → opening_of id (opened ++ acc ∷ []) ≡ opening_of id opened +ℤ opened_with id acc
unfolding opening_of
opening_of-append id [] acc = grind int_laws
opening_of-append id (x ∷ opened) acc = grind (int_laws, opening_of-append id opened acc)

plus_zero : (z : ℤ) → z ≡ z +ℤ pos 0
plus_zero z = grind int_laws

zero_plus : (z : ℤ) → z ≡ pos 0 +ℤ z
zero_plus z = grind int_laws

Inserted-own_balance :
    (acc : Account) (before after : List Account)
    → Inserted acc before after
    → balance_of acc.id after ≡ balance_of acc.id before +ℤ acc.balance
Inserted-own_balance acc before after (row, schema) =
    let schema' = subst (λ l. accounts_schema l ≡ true) row schema in
    let missing = find?_of_append (λ (r : Account). r.id) before acc (ground arith) in
    ap (balance_of acc.id) row
    ∙ ap balance_or_zero
        (find?-append_new (λ (r : Account). r.id == acc.id) before acc missing (ground arith))
    ∙ zero_plus acc.balance
    ∙ ap (λ z. z +ℤ acc.balance) (sym (ap balance_or_zero missing))

pub Inserted-balance_of :
    (id : ℕ) (acc : Account) (before after : List Account)
    → Inserted acc before after
    → balance_of id after ≡ balance_of id before +ℤ opened_with id acc
Inserted-balance_of id acc before after (row, schema) = elim (Bool-cases (acc.id == id)) [
  | inl own ↦ rw own (
      subst (λ k. balance_of k after ≡ balance_of k before +ℤ acc.balance) (ground arith)
        (Inserted-own_balance acc before after (row, schema)))
  | inr other ↦ rw other (
      ap (balance_of id) row
      ∙ ap balance_or_zero (find?-append_other (λ (r : Account). r.id == id) before acc other)
      ∙ plus_zero (balance_of id before))
]

add_opening :
    (b b' b'' o o' a q q' q'' : ℤ)
    → b' +ℤ q ≡ (b +ℤ o) +ℤ q'
    → b'' ≡ b' +ℤ a
    → o' ≡ o +ℤ a
    → q'' ≡ q'
    → b'' +ℤ q ≡ (b +ℤ o') +ℤ q''
add_opening b b' b'' o o' a q q' q'' h balance opening queue =
    rw (balance, opening, queue) (grind (int_laws, ap pos_part h, ap neg_part h))

add_change :
    (b b' b'' o q q' q'' : ℤ)
    → b' +ℤ q ≡ (b +ℤ o) +ℤ q'
    → b'' +ℤ q' ≡ b' +ℤ q''
    → b'' +ℤ q ≡ (b +ℤ o) +ℤ q''
add_change b b' b'' o q q' q'' h h' =
    grind (int_laws, ap pos_part h, ap neg_part h, ap pos_part h', ap neg_part h')

-- The accounts are those of before and those that have been opened since; each balance, less what the
-- messages of the outbox say of it, is what it was before with what was paid in at the opening.
pub record Grown {B : Type 0} (json : Json B) (rows : List Account) (queue : List (Message B))
    (rows' : List Account) (queue' : List (Message B)) (opened : List Account) : Type 0 where
  pub fresh : All IsNewAccount opened
  pub accounts : ids rows' ≡ ids rows ++ ids opened
  pub balances :
      (id : ℕ)
      → balance_of id rows' +ℤ journal_of json id queue
        ≡ (balance_of id rows +ℤ opening_of id opened) +ℤ journal_of json id queue'

module _ {B : Type 0} (json : Json B) (rows rows' rows'' : List Account)
    (queue queue' queue'' : List (Message B)) (opened : List Account)
    (g : Grown json rows queue rows' queue' opened) where
  pub Grown-change :
      ids rows'' ≡ ids rows'
      → Reconciled json rows' queue' rows'' queue''
      → Grown json rows queue rows'' queue'' opened
  Grown-change same r = record {
    fresh = g.fresh;
    accounts = same ∙ g.accounts;
    balances = λ id. add_change _ _ _ _ _ _ _ (g.balances id) (r id);
  }

  pub Grown-open :
      (acc : Account)
      → IsNewAccount acc
      → Inserted acc rows' rows''
      → queue'' ≡ queue'
      → Grown json rows queue rows'' queue'' (opened ++ acc ∷ [])
  Grown-open acc is inserted same = record {
    fresh = All-append IsNewAccount opened acc g.fresh is;
    accounts =
        ap ids inserted.0
        ∙ map-append _ rows' (acc ∷ [])
        ∙ ap (λ l. l ++ acc.id ∷ []) g.accounts
        ∙ append_assoc (ids rows) (ids opened) (acc.id ∷ [])
        ∙ ap (λ l. ids rows ++ l) (sym (map-append _ opened (acc ∷ [])));
    balances = λ id.
        add_opening _ _ _ _ _ _ _ _ _ (g.balances id)
          (Inserted-balance_of id acc rows' rows'' inserted) (opening_of-append id opened acc)
          (ap (journal_of json id) same);
  }

-- A run that has done nothing.
pub Grown-start :
    {B : Type 0} (json : Json B) (rows : List Account) (queue : List (Message B))
    → Grown json rows queue rows queue []
unfolding opening_of
Grown-start json rows queue = record {
  fresh = tt;
  accounts = sym (append-nil (ids rows));
  balances = λ id. ap (λ z. z +ℤ journal_of json id queue) (plus_zero (balance_of id rows));
}
