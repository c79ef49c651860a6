-- ===== src/Gateway/Router.antt =====
-- internal/api_gateway/router.go and the middleware: which handler serves a request, under which
-- correlation ID, and what becomes of a panic. gin matches the paths; `GET /health`, which answers
-- with the time, and the logging are left out.
pub mod Serving
use innoscripta_banking_ledg.Base.{ℕ, String, str_eq, Option, none, some, if◌then◌else◌}
use innoscripta_banking_ledg.Platform.Querier.{Querier}
use innoscripta_banking_ledg.Platform.Collection.{Collection}
use innoscripta_banking_ledg.Platform.World.{World}
use innoscripta_banking_ledg.Gateway.TransactionService.{MessagePublisher, Channels}
use innoscripta_banking_ledg.Gateway.Dto.{Binding, Formats}
use innoscripta_banking_ledg.Gateway.Http.{HttpResponse, respond_internal_error}
use innoscripta_banking_ledg.Gateway.TransactionHandler.{Fresh}
use innoscripta_banking_ledg.Gateway.TransactionHandler as TransactionHandler
use innoscripta_banking_ledg.Gateway.AccountHandler as AccountHandler

-- The routes of /api/v1, with the parameter `:id`.
pub data Route : Type 0 where
  post_account post_transaction : Route
  get_account get_account_transactions get_transaction : String → Route

-- The header is "" where the request has none.
pub record HttpRequest (V : Type 0) : Type 0 where
  pub route : Route
  pub correlation_header : String
  pub body : V
  pub query : V

-- The databases and the topic of the requests.
pub record Backends (P M T : Type 0) : Type 0 where
  pub world : World P M
  pub topic : T

abbrev pub no_panic : {M : Type 0} → HttpResponse × M → Option HttpResponse × M
no_panic (answer, m) = (some answer, m)

module _ {P M T : Type 0} where
  abbrev pub with_tables : HttpResponse × P → Backends P M T → Option HttpResponse × Backends P M T
  with_tables (answer, p) w = (some answer, record w { world = record w.world { pg = p } })

  abbrev pub with_ledger :
      Option HttpResponse × M → Backends P M T → Option HttpResponse × Backends P M T
  with_ledger (answer, m) w = (answer, record w { world = record w.world { mongo = m } })

  abbrev pub with_channels :
      HttpResponse × Channels M T → Backends P M T → Option HttpResponse × Backends P M T
  with_channels (answer, channels) w = (
    some answer,
    record w { world = record w.world { mongo = channels.mongo }; topic = channels.topic },
  )

-- `middleware.CorrelationID`, but for the header that it puts into the answer; `new_id` is `uuid.New()`.
abbrev pub correlation_of : Formats → ℕ → String → String
correlation_of f new_id header = if str_eq header "" then f.uuid_string new_id else header

-- `middleware.Recovery`: a panic is answered with 500, and logged, which is left out.
abbrev pub recovered : String → Option HttpResponse → HttpResponse
recovered correlation none = respond_internal_error correlation
recovered correlation (some answer) = answer

module _ {V B P M T : Type 0} (f : Formats) (b : Binding V) (q : Querier B P) (c : Collection M)
    (producer : MessagePublisher T) where
  -- `none` is a panic of the handler.
  unfoldable pub handle_route :
      String → Fresh → V → V → Route → Backends P M T → Option HttpResponse × Backends P M T
  handle_route correlation fresh body query post_account w =
      with_tables (AccountHandler.create f b q correlation fresh.id fresh.now body w.world.pg) w
  handle_route correlation fresh body query post_transaction w =
      with_channels
        (TransactionHandler.create f b c correlation producer fresh body
          (record { mongo = w.world.mongo; topic = w.topic }))
        w
  handle_route correlation fresh body query (get_account id) w =
      with_tables (AccountHandler.get_by_id f b q correlation id w.world.pg) w
  handle_route correlation fresh body query (get_account_transactions id) w =
      with_ledger (TransactionHandler.get_by_account_id f b c correlation id query w.world.mongo) w
  handle_route correlation fresh body query (get_transaction id) w =
      with_ledger (no_panic (TransactionHandler.get_by_id f b c correlation id w.world.mongo)) w

  unfoldable pub serve : ℕ → Fresh → HttpRequest V → Backends P M T → HttpResponse × Backends P M T
  unfolding handle_route
  serve new_correlation fresh request w =
      let correlation = correlation_of f new_correlation request.correlation_header in
      let (answer, w') =
        handle_route correlation fresh request.body request.query request.route w in
      (recovered correlation answer, w')
