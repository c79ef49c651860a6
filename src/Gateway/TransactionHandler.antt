-- ===== src/Gateway/TransactionHandler.antt =====
-- internal/api_gateway/handler/transaction_handler.go. A handler is a function from the state of the
-- ledger and of the topic to the answer and the state after it.
pub mod Endpoints
pub mod Reading
pub mod Publishing
pub mod Listing
use Prim.Native.String.{◌++◌ as append}
use innoscripta_banking_ledg.Base.{
  ℕ, ℤ, String, str_eq, Option, none, some, List, map, if◌then◌else◌,
}
use innoscripta_banking_ledg.Domain.Shared.{
  TransactionType, deposit, withdrawal, TransactionRequest,
}
use innoscripta_banking_ledg.Domain.Result.{Result, ok, err}
use innoscripta_banking_ledg.Domain.Ledger.{Entry}
use innoscripta_banking_ledg.Platform.Collection.{Collection}
use innoscripta_banking_ledg.Gateway.TransactionService.{
  MessagePublisher, Channels, create_transaction, get_transaction_by_id,
  get_transactions_by_account_id,
}
use innoscripta_banking_ledg.Gateway.Dto.{
  Bound, bound, refused, Binding, CreateTransactionRequest, PaginationParams, Formats,
  map_ledger_entry_to_response,
}
use innoscripta_banking_ledg.Gateway.Http.{
  Payload, transaction, transactions, accepted, HttpResponse, respond_ok, respond_accepted,
  respond_bad_request, respond_not_found, respond_internal_error, respond_with_paginated_data,
}

-- The values that a call of `Create` takes from outside: two calls of `uuid.New()`, of which the first
-- is only made for a missing key, and `time.Now()`.
pub record Fresh : Type 0 where
  pub key : ℕ
  pub id : ℕ
  pub now : ℕ

abbrev pub transaction_type : String → Option TransactionType
transaction_type t =
    if str_eq t "DEPOSIT"
    then some deposit
    else if str_eq t "WITHDRAWAL"
    then some withdrawal
    else none

module _ (f : Formats) (correlation : String) where
  abbrev pub idempotency_key : ℕ → String → String
  idempotency_key new_key key = if str_eq key "" then f.uuid_string new_key else key

  abbrev pub transaction_request :
      Fresh → CreateTransactionRequest → ℕ → TransactionType → TransactionRequest
  transaction_request fresh r account_id type = record {
    transaction_id = fresh.id;
    account_id = account_id;
    type = type;
    amount = r.amount;
    currency = r.currency;
    idempotency_key = idempotency_key fresh.key r.idempotency_key;
    correlation_id = correlation;
    timestamp = fresh.now;
  }

  unfoldable pub transaction_created : Result (ℕ × Option Entry) → HttpResponse
  transaction_created (err _) = respond_internal_error correlation
  transaction_created (ok (id, some entry)) =
      respond_ok correlation (transaction (map_ledger_entry_to_response f entry))
  transaction_created (ok (id, none)) = respond_accepted correlation (accepted id "PENDING")

  unfoldable pub transaction_found : Result (Option Entry) → HttpResponse
  transaction_found (err _) = respond_internal_error correlation
  transaction_found (ok none) = respond_not_found correlation "Transaction not found"
  transaction_found (ok (some entry)) =
      respond_ok correlation (transaction (map_ledger_entry_to_response f entry))

  -- `none` is a panic.
  page_found : PaginationParams → Result (List Entry × ℤ) → Option HttpResponse
  page_found p (err _) = some (respond_internal_error correlation)
  page_found p (ok (entries, total)) =
      respond_with_paginated_data correlation 200
        (transactions (map (map_ledger_entry_to_response f) entries)) p.page p.per_page total

module _ {V M : Type 0} (f : Formats) (b : Binding V) (c : Collection M)
    (correlation : String) where
  module _ {T : Type 0} (producer : MessagePublisher T) (fresh : Fresh) where
    create_typed :
        CreateTransactionRequest
        → ℕ
        → Option TransactionType
        → Channels M T
        → HttpResponse × Channels M T
    unfolding transaction_created
    create_typed r account_id none w =
        (respond_bad_request correlation "Invalid transaction type", w)
    create_typed r account_id (some type) w =
        let (created, w') =
          create_transaction c producer (transaction_request f correlation fresh r account_id type)
            w in
        (transaction_created f correlation created, w')

    create_parsed : CreateTransactionRequest → Option ℕ → Channels M T → HttpResponse × Channels M T
    unfolding create_typed
    create_parsed r none w = (respond_bad_request correlation "Invalid account ID", w)
    create_parsed r (some account_id) w = create_typed r account_id (transaction_type r.type) w

    create_bound : Bound CreateTransactionRequest → Channels M T → HttpResponse × Channels M T
    unfolding create_parsed
    create_bound (refused text) w =
        (respond_bad_request correlation (append "Invalid request body: " text), w)
    create_bound (bound r) w = create_parsed r (f.parse_uuid r.account_id) w

    unfoldable pub create : V → Channels M T → HttpResponse × Channels M T
    unfolding create_bound
    create body w = create_bound (b.bind_transaction body) w

  get_parsed : Option ℕ → M → HttpResponse × M
  unfolding transaction_found
  get_parsed none m = (respond_bad_request correlation "Invalid transaction ID", m)
  get_parsed (some id) m =
      let (found, m') = get_transaction_by_id c id m in (transaction_found f correlation found, m')

  unfoldable pub get_by_id : String → M → HttpResponse × M
  unfolding get_parsed
  get_by_id id_param m = get_parsed (f.parse_uuid id_param) m

  get_page : ℕ → Bound PaginationParams → M → Option HttpResponse × M
  unfolding page_found
  get_page account_id (refused _) m =
      (some (respond_bad_request correlation "Invalid pagination parameters"), m)
  get_page account_id (bound p) m =
      let (page, m') = get_transactions_by_account_id c account_id p.page p.per_page m in
      (page_found f correlation p page, m')

  get_account_page : Option ℕ → V → M → Option HttpResponse × M
  unfolding get_page
  get_account_page none query m = (some (respond_bad_request correlation "Invalid account ID"), m)
  get_account_page (some account_id) query m = get_page account_id (b.bind_pagination query) m

  unfoldable pub get_by_account_id : String → V → M → Option HttpResponse × M
  unfolding get_account_page
  get_by_account_id id_param query m = get_account_page (f.parse_uuid id_param) query m
