-- ===== src/Domain/Account/Movements.antt =====
-- Deposits and withdrawals against each other, and what makes an account.
use innoscripta_banking_ledg.Base.{
  ℕ, ℤ, pos, ◌+ℤ◌, ◌-ℤ◌, ◌≤ℤ◌, leb_ℤ, ltb_ℤ, Bool-cases, IsInt64, wrap64, wrap64_id, int_laws,
  String, ◌≡◌, ◌≢◌, ◌⊎◌, ◌↔◌, inl, inr, refl, true, false, ap, ◌∙◌, pos_part, neg_part, arith,
  eq_iff,
}
use Prim.Native.String.{len}
use innoscripta_banking_ledg.Domain.Result.{ok, err}
use innoscripta_banking_ledg.Domain.Error.{insufficient_funds, invalid_amount}
use innoscripta_banking_ledg.Domain.Account.{
  Account, opened, withdrawn, new_account, deposit, withdraw, can_withdraw,
}

new_balance :
    (amount : ℤ) (now : ℕ) (a a' : Account)
    → IsInt64 (a.balance +ℤ amount)
    → deposit amount now a ≡ ok a'
    → (a'.balance ≡ a.balance +ℤ amount) × (pos 1 ≤ℤ amount)
unfolding deposit
new_balance amount now a a' fits h = ground (arith, wrap64_id (a.balance +ℤ amount) fits)

sum_covers : (b amount s : ℤ) → s ≡ b +ℤ amount → pos 0 ≤ℤ b → amount ≤ℤ s
sum_covers b amount s h n = grind (int_laws, ap pos_part h, ap neg_part h)

sum_less : (b amount s : ℤ) → s ≡ b +ℤ amount → s -ℤ amount ≡ b
sum_less b amount s h = grind (int_laws, ap pos_part h, ap neg_part h)

withdraw_allowed :
    (amount : ℤ) (now : ℕ) (a : Account)
    → pos 1 ≤ℤ amount
    → amount ≤ℤ a.balance
    → withdraw amount now a ≡ ok (withdrawn amount now a)
unfolding withdraw
withdraw_allowed amount now a p c = ground arith

-- A withdrawal undoes a deposit: where a deposit has succeeded and its sum fits 64 bits, the same
-- amount can be withdrawn, and the balance is what it was.
pub withdraw-deposit :
    (amount : ℤ) (now later : ℕ) (a a' : Account)
    → IsInt64 a.balance
    → pos 0 ≤ℤ a.balance
    → IsInt64 (a.balance +ℤ amount)
    → deposit amount now a ≡ ok a'
    → (a'' : Account) × (withdraw amount later a' ≡ ok a'') × (a''.balance ≡ a.balance)
withdraw-deposit amount now later a a' range nonneg fits h =
    let summed = new_balance amount now a a' fits h in
    (
      withdrawn amount later a',
      withdraw_allowed amount later a' summed.1
          (sum_covers a.balance amount a'.balance summed.0 nonneg),
      ap wrap64 (sum_less a.balance amount a'.balance summed.0) ∙ wrap64_id a.balance range,
    )

-- `Withdraw` succeeds exactly where the amount is positive and `CanWithdraw` says yes; where it
-- fails, the error says which of the two does not hold.
pub withdraw-can_withdraw :
    (amount : ℤ) (now : ℕ) (a : Account)
    → ((a' : Account) × (withdraw amount now a ≡ ok a'))
        × (pos 1 ≤ℤ amount)
        × (can_withdraw amount a ≡ true)
      ⊎ (((withdraw amount now a ≡ err invalid_amount) × (amount ≤ℤ pos 0))
          ⊎ ((withdraw amount now a ≡ err insufficient_funds)
              × (pos 1 ≤ℤ amount)
              × (can_withdraw amount a ≡ false)))
unfolding withdraw can_withdraw
withdraw-can_withdraw amount now a = elim (Bool-cases (leb_ℤ amount (pos 0))) [
  | inl bad ↦ inr (inl (ground arith, ground arith))
  | inr good ↦ elim (Bool-cases (ltb_ℤ a.balance amount)) [
    | inl short ↦ inr (inr (ground arith, ground arith, ground arith))
    | inr enough ↦
        inl ((withdrawn amount now a, rw (good, enough) refl), ground arith, ground arith)
  ]
]

-- An account is made exactly of a name, a currency of three bytes and a balance that is not negative,
-- and starts with that balance and version 1.
pub new_account_accepts :
    (new_id now : ℕ) (owner_name national_id : String) (initial_balance : ℤ) (currency : String)
    → ((owner_name ≢ "") × (len currency ≡ 3) × (pos 0 ≤ℤ initial_balance)) ↔ (
        (a : Account) × (new_account new_id now owner_name national_id initial_balance currency
          ≡ ok a)
        × (a.balance ≡ initial_balance)
        × (a.version ≡ pos 1))
unfolding new_account
new_account_accepts new_id now owner_name national_id initial_balance currency = (
  λ (name, three, nonneg). (
    opened new_id now owner_name national_id initial_balance currency,
    ground (arith, eq_iff owner_name ""),
    refl,
    refl,
  ),
  λ (a, made, _, _). ground (arith, eq_iff owner_name ""),
)
