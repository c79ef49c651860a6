-- ===== src/Gateway/TransactionHandler/Listing.antt =====
-- What `GET /accounts/:id/transactions` answers, on every input and on every reply of MongoDB.
use innoscripta_banking_ledg.Base.{
  ℕ, pos, pos_part, String, ◌≡◌, ◌⊎◌, refl, Option, none, some, List, map,
}
use innoscripta_banking_ledg.Domain.Result.{Result}
use innoscripta_banking_ledg.Domain.Ledger.{Entry}
use innoscripta_banking_ledg.Platform.Collection.{Collection, IsCollection}
use innoscripta_banking_ledg.Gateway.TransactionService.Listing.{
  IsPage, total_of, get_transactions_by_account_id_keeps,
}
use innoscripta_banking_ledg.Gateway.Dto.{
  Bound, bound, refused, Binding, IsBinding, PaginationParams, Formats,
  map_ledger_entry_to_response,
}
use innoscripta_banking_ledg.Gateway.Http.{
  transactions, page_of, HttpResponse, respond_bad_request, respond_internal_error,
}
use innoscripta_banking_ledg.Gateway.Http.Pagination.{Pages}
use innoscripta_banking_ledg.Gateway.TransactionHandler.{
  get_page, get_account_page, get_by_account_id,
}

module _ (f : Formats) (correlation : String) where
  abbrev pub page_answer : PaginationParams → List Entry → ℕ → ℕ → HttpResponse
  page_answer p page total pages = record {
    status = 200;
    body =
        record (page_of (transactions (map (map_ledger_entry_to_response f) page)) p.page p.per_page
          (pos total) (pos pages)) { correlation_id = correlation };
  }

  abbrev pub PageAnswers : ℕ → Bound PaginationParams → List Entry → HttpResponse → Type 0
  PageAnswers account_id (refused text) entries answer =
      answer ≡ respond_bad_request correlation "Invalid pagination parameters"
  PageAnswers account_id (bound p) entries answer =
      ((page : List Entry) × (pages : ℕ) × (answer
          ≡ page_answer p page (total_of account_id entries) pages)
        × IsPage account_id p.per_page entries page
        × Pages (total_of account_id entries) (pos_part p.per_page) pages)
      ⊎ (answer ≡ respond_internal_error correlation)

  abbrev pub ListAnswers : Option ℕ → Bound PaginationParams → List Entry → HttpResponse → Type 0
  ListAnswers none query entries answer =
      answer ≡ respond_bad_request correlation "Invalid account ID"
  ListAnswers (some account_id) query entries answer = PageAnswers account_id query entries answer

  -- The answer is there: no panic.
  abbrev pub Answered : (HttpResponse → Type 0) → Option HttpResponse → Type 0
  Answered P none = ⊥
  Answered P (some answer) = P answer

module _ {V M : Type 0} (f : Formats) (b : Binding V) (tags : IsBinding b) (c : Collection M)
    (j : IsCollection c) (correlation : String) where
  page_keeps :
      (account_id : ℕ) (p : Bound PaginationParams) (m : M)
      → j.entries (get_page f b c correlation account_id p m).1 ≡ j.entries m
  unfolding get_page
  page_keeps account_id (refused text) m = refl
  page_keeps account_id (bound p) m =
      get_transactions_by_account_id_keeps c j account_id p.per_page p.page m

  account_keeps :
      (id : Option ℕ) (query : V) (m : M)
      → j.entries (get_account_page f b c correlation id query m).1 ≡ j.entries m
  unfolding get_account_page
  account_keeps none query m = refl
  account_keeps (some id) query m = page_keeps id (b.bind_pagination query) m

  -- The ledger is untouched, whatever it holds.
  pub get_by_account_id_keeps :
      (id_param : String) (query : V) (m : M)
      → j.entries (get_by_account_id f b c correlation id_param query m).1 ≡ j.entries m
  unfolding get_by_account_id
  get_by_account_id_keeps id_param query m = account_keeps (f.parse_uuid id_param) query m
