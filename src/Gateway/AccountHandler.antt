-- ===== src/Gateway/AccountHandler.antt =====
-- internal/api_gateway/handler/account_handler.go. A handler is a function from the state of the
-- databases to the answer and the state after it.
pub mod Endpoints
pub mod Opening
use Prim.Native.String.{◌++◌ as append}
use innoscripta_banking_ledg.Base.{ℕ, String, Bool, true, false, Option, none, some, if◌then◌else◌}
use innoscripta_banking_ledg.Domain.Error.{Error, wrapped, duplicate_national_id, account_not_found}
use innoscripta_banking_ledg.Domain.Result.{Result, ok, err}
use innoscripta_banking_ledg.Domain.Account.{Account}
use innoscripta_banking_ledg.Platform.Querier.{Querier}
use innoscripta_banking_ledg.Gateway.AccountService.{create_account, get_account_by_id}
use innoscripta_banking_ledg.Gateway.Dto.{
  Bound, bound, refused, Binding, CreateAccountRequest, Formats, map_account_to_response,
}
use innoscripta_banking_ledg.Gateway.Http.{
  Payload, account, HttpResponse, respond_ok, respond_created, respond_bad_request,
  respond_not_found, respond_internal_error,
}

-- `errors.As` with a target of type `ErrDuplicateNationalID`
unfoldable pub as_duplicate_national_id : Error → Bool
as_duplicate_national_id (wrapped e) = as_duplicate_national_id e
as_duplicate_national_id (duplicate_national_id _) = true
as_duplicate_national_id _ = false

-- `errors.As` with a target of type `ErrAccountNotFound`
unfoldable pub as_account_not_found : Error → Bool
as_account_not_found (wrapped e) = as_account_not_found e
as_account_not_found (account_not_found _) = true
as_account_not_found _ = false

module _ {V B Q : Type 0} (f : Formats) (b : Binding V) (q : Querier B Q)
    (correlation : String) where
  unfoldable pub account_created : Result Account → HttpResponse
  unfolding as_duplicate_national_id
  account_created (ok acc) = respond_created correlation (account (map_account_to_response f acc))
  account_created (err e) =
      if as_duplicate_national_id e
      then respond_bad_request correlation "Account with this National ID already exists"
      else respond_internal_error correlation

  create_bound : ℕ → ℕ → Bound CreateAccountRequest → Q → HttpResponse × Q
  unfolding account_created
  create_bound new_id now (refused text) s =
      (respond_bad_request correlation (append "Invalid request body: " text), s)
  create_bound new_id now (bound r) s =
      let (acc, s') =
        create_account q new_id now r.owner_name r.national_id r.initial_balance r.currency s in
      (account_created acc, s')

  unfoldable pub create : ℕ → ℕ → V → Q → HttpResponse × Q
  unfolding create_bound
  create new_id now body s = create_bound new_id now (b.bind_account body) s

  unfoldable pub account_found : Result Account → HttpResponse
  unfolding as_account_not_found
  account_found (ok acc) = respond_ok correlation (account (map_account_to_response f acc))
  account_found (err e) =
      if as_account_not_found e
      then respond_not_found correlation "Account not found"
      else respond_internal_error correlation

  get_parsed : Option ℕ → Q → HttpResponse × Q
  unfolding account_found
  get_parsed none s = (respond_bad_request correlation "Invalid account ID", s)
  get_parsed (some id) s = let (acc, s') = get_account_by_id q id s in (account_found acc, s')

  unfoldable pub get_by_id : String → Q → HttpResponse × Q
  unfolding get_parsed
  get_by_id id_param s = get_parsed (f.parse_uuid id_param) s
