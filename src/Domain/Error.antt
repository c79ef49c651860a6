-- ===== src/Domain/Error.antt =====
-- The errors of internal/domain (account, ledger, outbox, shared), how the layers wrap them, and
-- `errors.Is`. The text of an error is not modelled.
pub mod Chains
use innoscripta_banking_ledg.Base.{
  ℕ, ℤ, String, Bool, true, false, ◌||◌, str_eq, ◌==◌, if◌then◌else◌,
}

pub data Error : Type 0 where
  -- account.go, transaction_request.go
  insufficient_funds invalid_amount empty_owner_name invalid_currency_format : Error
  invalid_transaction_type invalid_currency : Error
  -- the error structs of the three repository.go
  concurrent_modification account_not_found : ℕ → Error
  duplicate_national_id : String → Error
  entry_not_found duplicate_entry : ℕ → Error
  message_not_found duplicate_message : ℕ → Error
  -- `errors.New` and `fmt.Errorf` with no `%w`
  empty_idempotency_key : Error
  amount_not_positive : ℤ → Error
  -- any error of a database driver, of Kafka or of encoding/json
  external : Error
  -- `fmt.Errorf` with `%w`
  wrapped : Error → Error

-- `ErrEntryNotFound.Is`, at a target of the same type
unfoldable pub is_entry_not_found : ℕ → ℕ → Bool
is_entry_not_found id target = if target == 0 then true else id == target

-- `ErrDuplicateEntry.Is`, at a target of the same type
unfoldable pub is_duplicate_entry : ℕ → ℕ → Bool
is_duplicate_entry id target = if target == 0 then true else id == target

-- One link of the chain: Go's `==`, or the method `Is` where the error has one.
matches : Error → Error → Bool
unfolding is_entry_not_found is_duplicate_entry
matches insufficient_funds insufficient_funds = true
matches invalid_amount invalid_amount = true
matches empty_owner_name empty_owner_name = true
matches invalid_currency_format invalid_currency_format = true
matches invalid_transaction_type invalid_transaction_type = true
matches invalid_currency invalid_currency = true
matches (concurrent_modification a) (concurrent_modification b) = a == b
matches (account_not_found a) (account_not_found b) = a == b
matches (duplicate_national_id a) (duplicate_national_id b) = str_eq a b
matches (entry_not_found a) (entry_not_found b) = is_entry_not_found a b || a == b
matches (duplicate_entry a) (duplicate_entry b) = is_duplicate_entry a b || a == b
matches (message_not_found a) (message_not_found b) = a == b
matches (duplicate_message a) (duplicate_message b) = a == b
matches _ _ = false

-- `errors.Is(err, target)`: `err` or something that it wraps matches.
unfoldable pub errors_is : Error → Error → Bool
unfolding matches
errors_is (wrapped e) target = errors_is e target
errors_is e target = matches e target
