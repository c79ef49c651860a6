-- ===== src/Domain/Account/Total.antt =====
-- The money in a list of accounts.
use innoscripta_banking_ledg.Base.{
  ℕ, ℤ, pos, ◌+ℤ◌, int_laws, ◌≡◌, true, some, List, [], ◌∷◌, ◌==◌, find?, distinct, update_all,
  update_all-id, find?_behind, Bool-cases, inl, inr, arith,
}
use innoscripta_banking_ledg.Domain.Account.{Account}

unfoldable pub total : List Account → ℤ
total [] = pos 0
total (a ∷ rows) = a.balance +ℤ total rows

found_here :
    (id : ℕ) (x : Account) (rows : List Account) (a : Account)
    → (x.id == id) ≡ true
    → find? (λ (row : Account). row.id == id) (x ∷ rows) ≡ some a
    → x ≡ a
found_here id x rows a e h = ground arith

module _ (id : ℕ) (g : Account → Account) where
  -- An update of one account changes the total by what it changes the balance.
  pub total-update_all :
      (rows : List Account) (a : Account)
      → distinct (λ (x y : Account). x.id == y.id) rows ≡ true
      → find? (λ (row : Account). row.id == id) rows ≡ some a
      → total (update_all (λ row. row.id == id) g rows) +ℤ a.balance ≡ total rows +ℤ (g a).balance
  unfolding total
  total-update_all [] a d h = ground arith
  total-update_all (x ∷ rows) a d h = elim (Bool-cases (x.id == id)) [
    | inl here ↦
        rw
          (
            here,
            update_all-id (λ (row : Account). row.id == id) g rows
                (find?_behind (λ (row : Account). row.id) x id rows (ground arith) here),
          )
          (grind (int_laws, found_here id x rows a here h))
    | inr there ↦ rw there (grind (int_laws, total-update_all rows a))
  ]
