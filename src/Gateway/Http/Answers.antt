-- ===== src/Gateway/Http/Answers.antt =====
-- What a client of the gateway is told, written out: the envelope of an answer, and how an account and
-- an entry of the ledger are shown.
use innoscripta_banking_ledg.Base.{ℕ, String, ◌≡◌, refl, Option, none, some}
use innoscripta_banking_ledg.Domain.Shared.{
  TransactionType, deposit, withdrawal, unknown, TransactionStatus, processing, completed, failed,
}
use innoscripta_banking_ledg.Domain.Account.{Account}
use innoscripta_banking_ledg.Domain.Ledger.{Entry}
use innoscripta_banking_ledg.Gateway.Dto.{
  AccountResponse, TransactionResponse, Formats, type_text, status_text, processed_text,
  map_ledger_entry_to_response,
}
use innoscripta_banking_ledg.Gateway.Http.{Payload, HttpResponse}

abbrev pub success : String → ℕ → Payload → HttpResponse
success correlation status data' = record {
  status = status;
  body = record { payload = some data'; error = none; correlation_id = correlation; meta = none };
}

abbrev pub failure : String → ℕ → String → String → HttpResponse
failure correlation status code message = record {
  status = status;
  body = record {
    payload = none;
    error = some (record { code = code; message = message });
    correlation_id = correlation;
    meta = none;
  };
}

abbrev pub bad_request : String → String → HttpResponse
bad_request correlation message = failure correlation 400 "BAD_REQUEST" message

abbrev pub internal_error : String → HttpResponse
internal_error correlation =
    failure correlation 500 "INTERNAL_SERVER_ERROR" "An internal server error occurred"

abbrev pub shown_account : Formats → Account → AccountResponse
shown_account f acc = record {
  id = f.uuid_string acc.id;
  owner_name = acc.owner_name;
  national_id = acc.national_id;
  balance = acc.balance;
  currency = acc.currency;
  created_at = f.rfc3339 acc.created_at;
  updated_at = f.rfc3339 acc.updated_at;
}

abbrev shown_type : TransactionType → String
shown_type deposit = "DEPOSIT"
shown_type withdrawal = "WITHDRAWAL"
shown_type (unknown s) = s

abbrev shown_status : TransactionStatus → String
shown_status TransactionStatus.pending = "PENDING"
shown_status processing = "PROCESSING"
shown_status completed = "COMPLETED"
shown_status failed = "FAILED"

abbrev shown_time : Formats → Option ℕ → String
shown_time f none = ""
shown_time f (some t) = f.rfc3339 t

abbrev pub shown_entry : Formats → Entry → TransactionResponse
shown_entry f e = record {
  transaction_id = f.uuid_string e.transaction_id;
  account_id = f.uuid_string e.account_id;
  type = shown_type e.type;
  amount = e.amount;
  currency = e.currency;
  status = shown_status e.status;
  failure_reason = e.failure_reason;
  created_at = f.rfc3339 e.created_at;
  processed_at = shown_time f e.processed_at;
}

type_shown : (t : TransactionType) → type_text t ≡ shown_type t
type_shown deposit = refl
type_shown withdrawal = refl
type_shown (unknown s) = refl

status_shown : (s : TransactionStatus) → status_text s ≡ shown_status s
status_shown TransactionStatus.pending = refl
status_shown processing = refl
status_shown completed = refl
status_shown failed = refl

time_shown : (f : Formats) (o : Option ℕ) → processed_text f o ≡ shown_time f o
time_shown f none = refl
time_shown f (some t) = refl

pub map_ledger_entry_to_response-shown :
    (f : Formats) (e : Entry) → map_ledger_entry_to_response f e ≡ shown_entry f e
unfolding map_ledger_entry_to_response
map_ledger_entry_to_response-shown f e = λ i. record (shown_entry f e) {
  type = type_shown e.type i;
  status = status_shown e.status i;
  processed_at = time_shown f e.processed_at i;
}
