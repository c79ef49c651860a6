-- ===== src/Gateway/TransactionHandler/Reading.antt =====
-- What `GET /transactions/:id` answers, on every input and on every reply of MongoDB.
use innoscripta_banking_ledg.Base.{
  ℕ, String, ◌≡◌, ◌⊎◌, inl, inr, refl, Option, none, some, List, arith,
}
use innoscripta_banking_ledg.Domain.Error.{wrapped, external}
use innoscripta_banking_ledg.Domain.Result.{Result, ok, err}
use innoscripta_banking_ledg.Domain.Ledger.{Entry}
use innoscripta_banking_ledg.Platform.Collection.{Collection, IsCollection}
use innoscripta_banking_ledg.Data.LedgerRepository.Entries.{entry_of}
use innoscripta_banking_ledg.Gateway.TransactionService.Acceptance.{get_transaction_by_id_finds}
use innoscripta_banking_ledg.Gateway.Dto.{Binding, Formats, map_ledger_entry_to_response}
use innoscripta_banking_ledg.Gateway.Http.{
  transaction, HttpResponse, respond_ok, respond_bad_request, respond_not_found,
  respond_internal_error,
}
use innoscripta_banking_ledg.Gateway.TransactionHandler.{transaction_found, get_parsed, get_by_id}

module _ {V M : Type 0} (f : Formats) (b : Binding V) (c : Collection M) (j : IsCollection c)
    (correlation : String) where
  abbrev pub GetAnswers : Option ℕ → List Entry → HttpResponse → Type 0
  GetAnswers none entries answer = answer ≡ respond_bad_request correlation "Invalid transaction ID"
  GetAnswers (some id) entries answer =
      ((e : Entry) × (answer
          ≡ respond_ok correlation (transaction (map_ledger_entry_to_response f e)))
        × (entry_of id entries ≡ some e))
      ⊎ (((answer ≡ respond_not_found correlation "Transaction not found")
            × (entry_of id entries ≡ none))
          ⊎ (answer ≡ respond_internal_error correlation))

  found-Answers :
      (id : ℕ) (entries : List Entry) (r : Result (Option Entry))
      → (r ≡ ok (entry_of id entries)) ⊎ (r ≡ err (wrapped external))
      → GetAnswers (some id) entries (transaction_found f correlation r)
  unfolding transaction_found
  found-Answers id entries (ok none) (inl e) = inr (inl (refl, cc))
  found-Answers id entries (ok (some x)) (inl e) = inl (x, refl, cc)
  found-Answers id entries (ok x) (inr e) = absurd (ground arith)
  found-Answers id entries (err x) _ = inr (inr refl)

  parsed_id-Answers :
      (id : Option ℕ) (m : M)
      → let (answer, m') = get_parsed f b c correlation id m in
        GetAnswers id (j.entries m) answer × (j.entries m' ≡ j.entries m)
  unfolding get_parsed
  parsed_id-Answers none m = (refl, refl)
  parsed_id-Answers (some id) m =
      let (found, same) = get_transaction_by_id_finds c j id m in
      (found-Answers id (j.entries m) _ found, same)

  -- `GET /transactions/:id` on every reply of MongoDB: 400 for what is no UUID; otherwise 200 with the
  -- entry of that transaction, 404 if there is none, or 500. The ledger is untouched.
  pub get_by_id-Answers :
      (id_param : String) (m : M)
      → let (answer, m') = get_by_id f b c correlation id_param m in
        GetAnswers (f.parse_uuid id_param) (j.entries m) answer × (j.entries m' ≡ j.entries m)
  unfolding get_by_id
  get_by_id-Answers id_param m = parsed_id-Answers (f.parse_uuid id_param) m
