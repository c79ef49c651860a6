-- ===== src/Gateway/Dto.antt =====
-- internal/api_gateway/handler/dto.go, the mappings to it of account_handler.go and
-- transaction_handler.go, and what the gateway uses of gin, of its validator, of google/uuid and of
-- the package time.
use innoscripta_banking_ledg.Base.{
  ℕ, ℤ, pos, ◌≤ℤ◌, IsInt64, String, ◌≡◌, ◌≢◌, ◌⊎◌, Option, none, some,
}
use innoscripta_banking_ledg.Domain.Shared.{
  TransactionType, deposit, withdrawal, unknown, TransactionStatus, processing, completed, failed,
}
use innoscripta_banking_ledg.Domain.Account.{Account}
use innoscripta_banking_ledg.Domain.Ledger.{Entry}

pub record CreateAccountRequest : Type 0 where
  pub owner_name : String
  pub national_id : String
  pub initial_balance : ℤ
  pub currency : String

pub record AccountResponse : Type 0 where
  pub id : String
  pub owner_name : String
  pub national_id : String
  pub balance : ℤ
  pub currency : String
  pub created_at : String
  pub updated_at : String

pub record CreateTransactionRequest : Type 0 where
  pub account_id : String
  pub type : String
  pub amount : ℤ
  pub currency : String
  pub idempotency_key : String

pub record TransactionResponse : Type 0 where
  pub transaction_id : String
  pub account_id : String
  pub type : String
  pub amount : ℤ
  pub currency : String
  pub status : String
  pub failure_reason : String
  pub created_at : String
  pub processed_at : String

pub record PaginationParams : Type 0 where
  pub page : ℤ
  pub per_page : ℤ

-- `ShouldBindJSON` and `ShouldBindQuery`: the value, or the text of the error.
pub data Bound (A : Type 0) : Type 0 where
  bound : A → Bound A
  refused : String → Bound A

-- `V` is the type of bodies and of query strings.
pub record Binding (V : Type 0) : Type 0 where
  pub bind_account : V → Bound CreateAccountRequest
  pub bind_transaction : V → Bound CreateTransactionRequest
  pub bind_pagination : V → Bound PaginationParams

-- What the tags of the three structs ask for of a value that is bound, and the range of the types.
-- The tag `len=3` counts code points, and is not used.
abbrev pub IsAccountRequest : CreateAccountRequest → Type 0
IsAccountRequest r =
    (r.owner_name ≢ "")
    × (r.national_id ≢ "")
    × (pos 0 ≤ℤ r.initial_balance)
    × IsInt64 r.initial_balance

abbrev pub IsTransactionRequest : CreateTransactionRequest → Type 0
IsTransactionRequest r =
    (r.account_id ≢ "")
    × ((r.type ≡ "DEPOSIT") ⊎ (r.type ≡ "WITHDRAWAL"))
    × (pos 1 ≤ℤ r.amount)
    × IsInt64 r.amount

abbrev pub IsPagination : PaginationParams → Type 0
IsPagination p =
    (pos 1 ≤ℤ p.page) × IsInt64 p.page × (pos 1 ≤ℤ p.per_page) × (p.per_page ≤ℤ pos 100)

pub record IsBinding {V : Type 0} (b : Binding V) : Type 0 where
  pub account_tags :
      (v : V) (r : CreateAccountRequest) → b.bind_account v ≡ bound r → IsAccountRequest r
  pub transaction_tags :
      (v : V) (r : CreateTransactionRequest)
      → b.bind_transaction v ≡ bound r
      → IsTransactionRequest r
  pub pagination_tags :
      (v : V) (p : PaginationParams) → b.bind_pagination v ≡ bound p → IsPagination p

-- `uuid.Parse`, `UUID.String` and `Time.Format` with `time.RFC3339`.
pub record Formats : Type 0 where
  pub parse_uuid : String → Option ℕ
  pub uuid_string : ℕ → String
  pub rfc3339 : ℕ → String

-- The text of a UUID is never empty.
pub record IsFormats (f : Formats) : Type 0 where
  pub uuid_text : (n : ℕ) → f.uuid_string n ≢ ""

-- The Go strings behind the words.
abbrev pub type_text : TransactionType → String
type_text deposit = "DEPOSIT"
type_text withdrawal = "WITHDRAWAL"
type_text (unknown s) = s

abbrev pub status_text : TransactionStatus → String
status_text TransactionStatus.pending = "PENDING"
status_text processing = "PROCESSING"
status_text completed = "COMPLETED"
status_text failed = "FAILED"

module _ (f : Formats) where
  unfoldable pub map_account_to_response : Account → AccountResponse
  map_account_to_response acc = record {
    id = f.uuid_string acc.id;
    owner_name = acc.owner_name;
    national_id = acc.national_id;
    balance = acc.balance;
    currency = acc.currency;
    created_at = f.rfc3339 acc.created_at;
    updated_at = f.rfc3339 acc.updated_at;
  }

  -- The zero value "" stays where the entry has no time of processing.
  abbrev pub processed_text : Option ℕ → String
  processed_text none = ""
  processed_text (some t) = f.rfc3339 t

  unfoldable pub map_ledger_entry_to_response : Entry → TransactionResponse
  map_ledger_entry_to_response entry = record {
    transaction_id = f.uuid_string entry.transaction_id;
    account_id = f.uuid_string entry.account_id;
    type = type_text entry.type;
    amount = entry.amount;
    currency = entry.currency;
    status = status_text entry.status;
    failure_reason = entry.failure_reason;
    created_at = f.rfc3339 entry.created_at;
    processed_at = processed_text entry.processed_at;
  }
