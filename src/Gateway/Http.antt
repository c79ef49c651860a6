-- ===== src/Gateway/Http.antt =====
-- internal/api_gateway/handler/http_response.go: what the gateway answers over HTTP. A call of
-- `c.JSON` is the answer of the handler; how gin writes it as JSON is not modelled.
pub mod Pagination
pub mod Answers
use innoscripta_banking_ledg.Base.{
  ℕ, ℤ, pos, ◌+ℤ◌, quot_ℤ, rem_ℤ, ltb_ℤ, eqb_ℤ, wrap64, String, str_eq, Option, none, some, List,
  if◌then◌else◌,
}
use innoscripta_banking_ledg.Gateway.Dto.{AccountResponse, TransactionResponse}

-- What the handlers put into the field `Data`, of type `interface{}`.
pub data Payload : Type 0 where
  account : AccountResponse → Payload
  transaction : TransactionResponse → Payload
  transactions : List TransactionResponse → Payload
  -- `gin.H{"transaction_id": id, "status": status}`
  accepted : ℕ → String → Payload

pub record ErrorInfo : Type 0 where
  pub code : String
  pub message : String

pub record MetaInfo : Type 0 where
  pub page : ℤ
  pub per_page : ℤ
  pub total_pages : ℤ
  pub total_items : ℤ

pub record Response : Type 0 where
  pub payload : Option Payload
  pub error : Option ErrorInfo
  pub correlation_id : String
  pub meta : Option MetaInfo

abbrev pub new_response : Payload → Response
new_response data' = record { payload = some data'; error = none; correlation_id = ""; meta = none }

abbrev pub new_error_response : String → String → Response
new_error_response code message = record {
  payload = none;
  error = some (record { code = code; message = message });
  correlation_id = "";
  meta = none;
}

-- The number of pages; `none` is the panic of a division by zero.
unfoldable pub total_pages : ℤ → ℤ → Option ℤ
total_pages total_items per_page =
    if eqb_ℤ per_page (pos 0)
    then none
    else if ltb_ℤ (pos 0) (rem_ℤ total_items per_page)
    then some (wrap64 (quot_ℤ total_items per_page +ℤ pos 1))
    else some (quot_ℤ total_items per_page)

abbrev pub page_of : Payload → ℤ → ℤ → ℤ → ℤ → Response
page_of data' page per_page total_items pages = record {
  payload = some data';
  error = none;
  correlation_id = "";
  meta =
      some (record {
        page = page;
        per_page = per_page;
        total_pages = pages;
        total_items = total_items;
      });
}

unfoldable pub new_paginated_response : Payload → ℤ → ℤ → ℤ → Option Response
new_paginated_response data' page per_page total_items = elim (total_pages total_items per_page) [
  | none ↦ none
  | some pages ↦ some (page_of data' page per_page total_items pages)
]

-- The status and the body of an answer.
pub record HttpResponse : Type 0 where
  pub status : ℕ
  pub body : Response

-- `correlation` is `middleware.GetCorrelationID(c)`.
module _ (correlation : String) where
  abbrev pub respond_with_data : ℕ → Payload → HttpResponse
  respond_with_data status data' = record {
    status = status;
    body = record (new_response data') { correlation_id = correlation };
  }

  abbrev pub respond_with_error : ℕ → String → String → HttpResponse
  respond_with_error status code message = record {
    status = status;
    body = record (new_error_response code message) { correlation_id = correlation };
  }

  abbrev pub paginated : ℕ → Option Response → Option HttpResponse
  paginated status none = none
  paginated status (some response) =
      some (record { status = status; body = record response { correlation_id = correlation } })

  unfoldable pub respond_with_paginated_data : ℕ → Payload → ℤ → ℤ → ℤ → Option HttpResponse
  respond_with_paginated_data status data' page per_page total_items =
      paginated status (new_paginated_response data' page per_page total_items)

  abbrev pub respond_ok : Payload → HttpResponse
  respond_ok = respond_with_data 200

  abbrev pub respond_created : Payload → HttpResponse
  respond_created = respond_with_data 201

  abbrev pub respond_accepted : Payload → HttpResponse
  respond_accepted = respond_with_data 202

  abbrev pub respond_bad_request : String → HttpResponse
  respond_bad_request message = respond_with_error 400 "BAD_REQUEST" message

  abbrev pub respond_unauthorized : String → HttpResponse
  respond_unauthorized message =
      respond_with_error 401 "UNAUTHORIZED" (if str_eq message "" then "Unauthorized" else message)

  abbrev pub respond_forbidden : String → HttpResponse
  respond_forbidden message =
      respond_with_error 403 "FORBIDDEN" (if str_eq message "" then "Forbidden" else message)

  abbrev pub respond_not_found : String → HttpResponse
  respond_not_found message =
      respond_with_error 404 "NOT_FOUND"
        (if str_eq message "" then "Resource not found" else message)

  abbrev pub respond_conflict : String → HttpResponse
  respond_conflict message = respond_with_error 409 "CONFLICT" message

  abbrev pub respond_internal_error : HttpResponse
  respond_internal_error =
      respond_with_error 500 "INTERNAL_SERVER_ERROR" "An internal server error occurred"
