-- ===== src/Domain/Error/Chains.antt =====
-- `errors.Is` along the chains that `fmt.Errorf` with `%w` makes.
use innoscripta_banking_ledg.Base.{ℕ, ◌≡◌, ◌↔◌, refl, true, arith}
use innoscripta_banking_ledg.Domain.Error.{
  Error, insufficient_funds, invalid_amount, empty_owner_name, invalid_currency_format,
  invalid_transaction_type, invalid_currency, concurrent_modification, account_not_found,
  duplicate_national_id, entry_not_found, duplicate_entry, message_not_found, duplicate_message,
  empty_idempotency_key, amount_not_positive, external, wrapped, errors_is,
}

-- The second error is the first, or what it wraps.
pub data Wraps : Error → Error → Type 0 where
  itself : (e : Error) → Wraps e e
  inside : {e t : Error} → Wraps e t → Wraps (wrapped e) t

found_inside :
    (e : Error) → errors_is e (entry_not_found 0) ≡ true → (id : ℕ) × Wraps e (entry_not_found id)
unfolding errors_is
found_inside (entry_not_found id) h = (id, itself (entry_not_found id))
found_inside (wrapped e) h = let (id, w) = found_inside e h in (id, inside w)
found_inside insufficient_funds h = ground arith
found_inside invalid_amount h = ground arith
found_inside empty_owner_name h = ground arith
found_inside invalid_currency_format h = ground arith
found_inside invalid_transaction_type h = ground arith
found_inside invalid_currency h = ground arith
found_inside (concurrent_modification _) h = ground arith
found_inside (account_not_found _) h = ground arith
found_inside (duplicate_national_id _) h = ground arith
found_inside (duplicate_entry _) h = ground arith
found_inside (message_not_found _) h = ground arith
found_inside (duplicate_message _) h = ground arith
found_inside empty_idempotency_key h = ground arith
found_inside (amount_not_positive _) h = ground arith
found_inside external h = ground arith

inside_found :
    (e : Error) (id : ℕ) → Wraps e (entry_not_found id) → errors_is e (entry_not_found 0) ≡ true
unfolding errors_is
inside_found e id (itself _) = refl
inside_found e id (inside {e = e'} w) = inside_found e' id w

-- `errors.Is(err, ErrEntryNotFound{})` finds exactly the errors that wrap an `ErrEntryNotFound`, of
-- any transaction and at any depth.
pub errors_is-entry_not_found :
    (e : Error)
    → (errors_is e (entry_not_found 0) ≡ true) ↔ ((id : ℕ) × Wraps e (entry_not_found id))
errors_is-entry_not_found e = (found_inside e, λ (id, w). inside_found e id w)
