-- ===== src/Tests/Gateway.antt =====
-- The HTTP layer of the gateway, and the two programs together.
use innoscripta_banking_ledg.Base.{
  pos, String, ◌≡◌, inr, refl, subst, Bool, true, false, some, none, List, [], ◌∷◌, ◌++◌, str_eq,
  eq_iff, if◌then◌else◌, arith,
}
use innoscripta_banking_ledg.Domain.Shared.{TransactionRequest}
use innoscripta_banking_ledg.Platform.Reply.{done}
use innoscripta_banking_ledg.Gateway.TransactionService.{MessagePublisher, Channels}
use innoscripta_banking_ledg.Gateway.Dto.{
  Bound, bound, refused, Binding, IsBinding, Formats, IsFormats, CreateAccountRequest,
  CreateTransactionRequest, PaginationParams, IsAccountRequest, IsTransactionRequest, IsPagination,
}
use innoscripta_banking_ledg.Gateway.TransactionHandler.{Fresh}
use innoscripta_banking_ledg.Gateway.TransactionHandler as TransactionHandler
use innoscripta_banking_ledg.Gateway.TransactionHandler.Endpoints as TransactionEndpoints
use innoscripta_banking_ledg.Gateway.AccountHandler as AccountHandler
use innoscripta_banking_ledg.Gateway.AccountHandler.Endpoints as AccountEndpoints
use innoscripta_banking_ledg.Gateway.Router.{post_transaction, HttpRequest, Backends, serve}
use innoscripta_banking_ledg.Gateway.Router.Serving.{Called, serve-Called}
use innoscripta_banking_ledg.Tests.InMemory.{
  Store, Documents, store_querier, store_querier-IsQuerier, store_collection,
  store_collection-IsCollection,
}
use innoscripta_banking_ledg.Tests.Samples.{alice, fresh_store, world, empty_documents}

abbrev pub plain_formats : Formats
plain_formats = record {
  parse_uuid = λ s. if str_eq s "7" then some 7 else none;
  uuid_string = λ n. "id";
  rfc3339 = λ n. "time";
}

pub plain_formats-IsFormats : IsFormats plain_formats
plain_formats-IsFormats = record { uuid_text = λ n. ground (arith, eq_iff "id" "") }

abbrev bob : CreateAccountRequest
bob = record { owner_name = "Bob"; national_id = "B-2"; initial_balance = pos 20; currency = "GBP" }

abbrev withdrawal_body : CreateTransactionRequest
withdrawal_body = record {
  account_id = "7";
  type = "WITHDRAWAL";
  amount = pos 30;
  currency = "EUR";
  idempotency_key = "k";
}

abbrev second_page : PaginationParams
second_page = record { page = pos 2; per_page = pos 20 }

-- A body or a query is one that binds, or not.
abbrev bound_if : {A : Type 0} → A → Bool → Bound A
bound_if a true = bound a
bound_if a false = refused "EOF"

bound_if-tags :
    {A : Type 0} (P : A → Type 0) (a : A) → P a → (v : Bool) (r : A) → bound_if a v ≡ bound r → P r
bound_if-tags P a is true r e = subst P (bound_inj a r e) is
  where
    bound_inj : {A : Type 0} (a r : A) → bound a ≡ bound r → a ≡ r
    bound_inj a r e = cc
bound_if-tags P a is false r e = absurd (not_bound "EOF" r e)
  where
    not_bound : {A : Type 0} (t : String) (r : A) → ¬ (refused t ≡ bound r)
    not_bound t r e = cc

abbrev pub sample_binding : Binding Bool
sample_binding = record {
  bind_account = bound_if bob;
  bind_transaction = bound_if withdrawal_body;
  bind_pagination = bound_if second_page;
}

bob-IsAccountRequest : IsAccountRequest bob
bob-IsAccountRequest =
    (ground (arith, eq_iff "Bob" ""), ground (arith, eq_iff "B-2" ""), omega arith, omega arith)

withdrawal_body-IsTransactionRequest : IsTransactionRequest withdrawal_body
withdrawal_body-IsTransactionRequest =
    (ground (arith, eq_iff "7" ""), inr refl, omega arith, omega arith)

second_page-IsPagination : IsPagination second_page
second_page-IsPagination = (omega arith, omega arith, omega arith, omega arith)

pub sample_binding-IsBinding : IsBinding sample_binding
sample_binding-IsBinding = record {
  account_tags = bound_if-tags IsAccountRequest bob bob-IsAccountRequest;
  transaction_tags =
      bound_if-tags IsTransactionRequest withdrawal_body withdrawal_body-IsTransactionRequest;
  pagination_tags = bound_if-tags IsPagination second_page second_page-IsPagination;
}

-- A topic that takes every message.
abbrev pub list_topic : MessagePublisher (List TransactionRequest)
list_topic = record { publish = λ key request topic. (done tt, topic ++ request ∷ []) }

abbrev pub fresh : Fresh
fresh = record { key = 1; id = 55; now = 11 }

abbrev channels : Channels Documents (List TransactionRequest)
channels = record { mongo = empty_documents; topic = [] }

create_transaction_example :
    let (answer, w) =
      TransactionHandler.create plain_formats sample_binding store_collection "c" list_topic fresh
        true channels in
    TransactionEndpoints.CreateAnswers plain_formats plain_formats-IsFormats sample_binding
      sample_binding-IsBinding store_collection store_collection-IsCollection "c" list_topic fresh
      (bound withdrawal_body)
      channels
      w
      answer
    × (w.mongo.docs ≡ [])
unfolding store_collection-IsCollection
create_transaction_example =
    TransactionEndpoints.create-Answers plain_formats plain_formats-IsFormats sample_binding
      sample_binding-IsBinding store_collection store_collection-IsCollection "c" list_topic fresh
      true channels

create_account_example :
    let (answer, s) =
      AccountHandler.create plain_formats sample_binding store_querier "c" 8 12 true fresh_store in
    AccountEndpoints.CreateAnswers plain_formats sample_binding store_querier
      store_querier-IsQuerier "c" 8 12
      (bound bob)
      (alice ∷ [])
      s.rows
      answer
    × (s.queue ≡ [])
unfolding store_querier-IsQuerier
create_account_example =
    AccountEndpoints.create-Creates plain_formats sample_binding store_querier
      store_querier-IsQuerier "c" 8 12 true fresh_store

abbrev pub backends : Backends Store Documents (List TransactionRequest)
backends = record { world = world; topic = [] }

abbrev pub post_withdrawal : HttpRequest Bool
post_withdrawal = record {
  route = post_transaction;
  correlation_header = "";
  body = true;
  query = true;
}

serve-Called_example :
    Called plain_formats plain_formats-IsFormats sample_binding sample_binding-IsBinding
      store_querier store_querier-IsQuerier store_collection store_collection-IsCollection
      list_topic backends
      (serve plain_formats sample_binding store_querier store_collection list_topic 2 fresh
        post_withdrawal backends).1
serve-Called_example =
    serve-Called plain_formats plain_formats-IsFormats sample_binding sample_binding-IsBinding
      store_querier store_querier-IsQuerier store_collection store_collection-IsCollection
      list_topic 2 fresh post_withdrawal backends
