-- ===== src/Gateway/AccountHandler/Endpoints.antt =====
-- What the account endpoints answer, on every body and on every reply of PostgreSQL.
use Prim.Native.String.{◌++◌ as append}
use Prim.Native.String.{len}
use innoscripta_banking_ledg.Base.{
  ℕ, pos, ◌≤ℤ◌, String, ◌≡◌, ◌≢◌, ◌⊎◌, inl, inr, refl, sym, false, Option, none, some, List, find?,
  str_eq, ◌==◌, arith, eq_iff,
}
use innoscripta_banking_ledg.Domain.Error.{Error}
use innoscripta_banking_ledg.Domain.Result.{Result, ok, err}
use innoscripta_banking_ledg.Domain.Account.{Account, new_account}
use innoscripta_banking_ledg.Platform.Reply.{Reply, done, fault, Found}
use innoscripta_banking_ledg.Platform.Querier.{Querier, IsQuerier}
use innoscripta_banking_ledg.Data.AccountRepository as AccountRepository
use innoscripta_banking_ledg.Gateway.AccountService.{get_account_by_id}
use innoscripta_banking_ledg.Gateway.AccountService.Creation.{Inserted, Opens, create_account-Opens}
use innoscripta_banking_ledg.Gateway.Dto.{
  Bound, bound, refused, Binding, CreateAccountRequest, Formats, map_account_to_response,
}
use innoscripta_banking_ledg.Gateway.Http.{
  account, HttpResponse, respond_ok, respond_bad_request, respond_not_found, respond_internal_error,
}
use innoscripta_banking_ledg.Gateway.Http.Answers.{
  success, bad_request, internal_error, shown_account,
}
use innoscripta_banking_ledg.Gateway.AccountHandler.{
  as_duplicate_national_id, as_account_not_found, account_created, create_bound, create,
  account_found, get_parsed, get_by_id,
}

module _ {V B Q : Type 0} (f : Formats) (b : Binding V) (q : Querier B Q) (i : IsQuerier q)
    (correlation : String) where
  module _ (new_id now : ℕ) where
    abbrev pub new_account_of : CreateAccountRequest → Result Account
    new_account_of r =
        new_account new_id now r.owner_name r.national_id r.initial_balance r.currency

    -- The account that a body stands for, and what is asked of the body.
    abbrev pub IsAccountOf : CreateAccountRequest → Account → Type 0
    IsAccountOf r acc =
        ((acc.id ≡ new_id)
          × (acc.owner_name ≡ r.owner_name)
          × (acc.national_id ≡ r.national_id)
          × (acc.balance ≡ r.initial_balance)
          × (acc.currency ≡ r.currency)
          × (acc.version ≡ pos 1)
          × (acc.created_at ≡ now)
          × (acc.updated_at ≡ now))
        × (r.owner_name ≢ "")
        × (len r.currency ≡ 3)
        × (pos 0 ≤ℤ r.initial_balance)

    abbrev pub holder_of : String → List Account → Option Account
    holder_of national_id rows = find? (λ row. str_eq row.national_id national_id) rows

    abbrev pub CreateAnswers :
        Bound CreateAccountRequest → List Account → List Account → HttpResponse → Type 0
    CreateAnswers (refused text) before after answer =
        (answer ≡ bad_request correlation (append "Invalid request body: " text)) × (after ≡ before)
    CreateAnswers (bound r) before after answer =
        ((acc : Account) × (answer ≡ success correlation 201 (account (shown_account f acc)))
          × IsAccountOf r acc
          × (holder_of r.national_id before ≡ none)
          × Inserted acc before after)
        ⊎ (((answer ≡ bad_request correlation "Account with this National ID already exists")
              × (holder_of r.national_id before ≢ none)
              × (after ≡ before))
            ⊎ ((answer ≡ internal_error correlation)
                × ((after ≡ before)
                    ⊎ ((acc : Account) × IsAccountOf r acc × Inserted acc before after))))

    new_account_of-IsAccountOf :
        (r : CreateAccountRequest) (acc : Account) → new_account_of r ≡ ok acc → IsAccountOf r acc
    unfolding new_account
    new_account_of-IsAccountOf r acc h = (
      (
        ground arith,
        ground arith,
        ground arith,
        ground arith,
        ground arith,
        ground arith,
        ground arith,
        ground arith,
      ),
      ground (arith, eq_iff r.owner_name ""),
      ground arith,
      ground arith,
    )

    invalid_account :
        (r : CreateAccountRequest) (e : Error)
        → new_account_of r ≡ err e
        → as_duplicate_national_id e ≡ false
    unfolding new_account as_duplicate_national_id
    invalid_account r e h = ground arith

    created-Answers :
        (r : CreateAccountRequest) (before after : List Account) (res : Result Account)
        → Opens new_id now r.owner_name r.national_id r.initial_balance r.currency before after res
        → CreateAnswers (bound r) before after (account_created f b q correlation res)
    unfolding account_created as_duplicate_national_id map_account_to_response
    created-Answers r before after (ok acc) o =
        inl (acc, refl, new_account_of-IsAccountOf r acc o.0, o.1, o.2)
    created-Answers r before after (err e) (inl (same, inl (c, taken))) =
        inr (inl (rw c refl, taken, same))
    created-Answers r before after (err e) (inl (same, inr (inl invalid))) =
        inr (inr (rw (invalid_account r e invalid) refl, inl same))
    created-Answers r before after (err e) (inl (same, inr (inr c))) =
        inr (inr (rw c refl, inl same))
    created-Answers r before after (err e) (inr (c, (acc, made, inserted))) =
        inr (inr (rw c refl, inr (acc, new_account_of-IsAccountOf r acc made, inserted)))

    bound-Answers :
        (r : Bound CreateAccountRequest) (s : Q)
        → let (answer, s') = create_bound f b q correlation new_id now r s in
          CreateAnswers r (i.accounts s) (i.accounts s') answer × (i.messages s' ≡ i.messages s)
    unfolding create_bound
    bound-Answers (refused text) s = ((refl, refl), refl)
    bound-Answers (bound r) s =
        let (opens, same) =
          create_account-Opens new_id now r.owner_name r.national_id r.initial_balance r.currency q
            i s in
        (created-Answers r _ _ _ opens, same)

    -- `POST /accounts` on every body and on every reply of PostgreSQL: a body that does not bind is a
    -- bad request; otherwise the answer is 201 with the account of the body, with a new ID and version
    -- 1, its name not empty, its currency of three bytes and its balance not negative, which has been put behind the others and whose national ID none of them had; or 400 for a
    -- national ID that one of them has, with the table unchanged; or 500, with the table unchanged
    -- or that account put behind the others. The outbox is untouched.
    pub create-Creates :
        (body : V) (s : Q)
        → let (answer, s') = create f b q correlation new_id now body s in
          CreateAnswers (b.bind_account body) (i.accounts s) (i.accounts s') answer
          × (i.messages s' ≡ i.messages s)
    unfolding create
    create-Creates body s = bound-Answers (b.bind_account body) s

  abbrev pub GetAnswers : Option ℕ → List Account → HttpResponse → Type 0
  GetAnswers none rows answer = answer ≡ respond_bad_request correlation "Invalid account ID"
  GetAnswers (some id) rows answer =
      ((acc : Account) × (answer ≡ respond_ok correlation (account (map_account_to_response f acc)))
        × (find? (λ row. row.id == id) rows ≡ some acc))
      ⊎ (((answer ≡ respond_not_found correlation "Account not found")
            × (find? (λ row. row.id == id) rows ≡ none))
          ⊎ (answer ≡ respond_internal_error correlation))

  Found-Answers :
      (id : ℕ) (rows : List Account) (r : Reply (Option Account))
      → Found (λ row. row.id == id) rows r
      → GetAnswers
          (some id)
          rows
          (account_found f b q correlation (AccountRepository.account_or_not_found id r))
  unfolding account_found as_account_not_found
  Found-Answers id rows (done none) found = inr (inl (refl, sym found))
  Found-Answers id rows (done (some acc)) found = inl (acc, refl, sym found)
  Found-Answers id rows fault _ = inr (inr refl)

  parsed-Answers :
      (id : Option ℕ) (s : Q)
      → let (answer, s') = get_parsed f b q correlation id s in
        GetAnswers id (i.accounts s) answer
        × (i.accounts s' ≡ i.accounts s)
        × (i.messages s' ≡ i.messages s)
  unfolding get_parsed get_account_by_id AccountRepository.get_by_id
  parsed-Answers none s = (refl, refl, refl)
  parsed-Answers (some id) s =
      let (accounts, messages) = i.select_account_keeps (λ row. row.id == id) s in
      (
        Found-Answers id (i.accounts s) _ (i.select_account_finds (λ row. row.id == id) s),
        accounts,
        messages,
      )

  -- `GET /accounts/:id` on every reply of PostgreSQL: 400 for what is no UUID; otherwise 200 with the
  -- account under that ID, 404 if there is none, or 500. The tables are untouched.
  pub get_by_id-Shows :
      (id_param : String) (s : Q)
      → let (answer, s') = get_by_id f b q correlation id_param s in
        GetAnswers (f.parse_uuid id_param) (i.accounts s) answer
        × (i.accounts s' ≡ i.accounts s)
        × (i.messages s' ≡ i.messages s)
  unfolding get_by_id
  get_by_id-Shows id_param s = parsed-Answers (f.parse_uuid id_param) s
