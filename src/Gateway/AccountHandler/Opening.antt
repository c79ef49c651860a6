-- ===== src/Gateway/AccountHandler/Opening.antt =====
-- What `POST /accounts` puts into the table.
use innoscripta_banking_ledg.Base.{
  ℕ, pos, ◌≤ℤ◌, IsInt64, String, ◌≡◌, ◌⊎◌, inl, inr, refl, sym, subst, List,
}
use innoscripta_banking_ledg.Domain.Account.{Account}
use innoscripta_banking_ledg.Platform.Querier.{Querier, IsQuerier}
use innoscripta_banking_ledg.Gateway.AccountService.Creation.{Inserted}
use innoscripta_banking_ledg.Gateway.Dto.{
  Bound, bound, refused, Binding, IsBinding, CreateAccountRequest, IsAccountRequest, Formats,
}
use innoscripta_banking_ledg.Gateway.Http.{HttpResponse}
use innoscripta_banking_ledg.Gateway.AccountHandler.{create}
use innoscripta_banking_ledg.Gateway.AccountHandler.Endpoints.{
  IsAccountOf, CreateAnswers, create-Creates,
}

-- An account that has just been opened.
abbrev pub IsNewAccount : Account → Type 0
IsNewAccount acc = (pos 0 ≤ℤ acc.balance) × IsInt64 acc.balance × (acc.version ≡ pos 1)

-- The table is left alone, or a new account is put behind the others.
abbrev pub OpensOne : List Account → List Account → Type 0
OpensOne before after =
    (after ≡ before) ⊎ ((acc : Account) × IsNewAccount acc × Inserted acc before after)

module _ {V B Q : Type 0} (f : Formats) (b : Binding V) (tags : IsBinding b) (q : Querier B Q)
    (i : IsQuerier q) (correlation : String) (new_id now : ℕ) where
  IsAccountOf-IsNewAccount :
      (r : CreateAccountRequest) (acc : Account)
      → IsAccountRequest r
      → IsAccountOf f b q i correlation new_id now r acc
      → IsNewAccount acc
  IsAccountOf-IsNewAccount r acc is ((_, _, _, balance, _, version, _, _), _, _, _) =
      (subst (λ n. pos 0 ≤ℤ n) (sym balance) is.2, subst IsInt64 (sym balance) is.3, version)

  answers-OpensOne :
      (r : Bound CreateAccountRequest)
      → ((r' : CreateAccountRequest) → r ≡ bound r' → IsAccountRequest r')
      → (before after : List Account) (answer : HttpResponse)
      → CreateAnswers f b q i correlation new_id now r before after answer
      → OpensOne before after
  answers-OpensOne (refused text) is before after answer (_, same) = inl same
  answers-OpensOne (bound r) is before after answer (inl (acc, _, made, _, inserted)) =
      inr (acc, IsAccountOf-IsNewAccount r acc (is r refl) made, inserted)
  answers-OpensOne (bound r) is before after answer (inr (inl (_, _, same))) = inl same
  answers-OpensOne (bound r) is before after answer (inr (inr (_, inl same))) = inl same
  answers-OpensOne (bound r) is before after answer (inr (inr (_, inr (acc, made, inserted)))) =
      inr (acc, IsAccountOf-IsNewAccount r acc (is r refl) made, inserted)

  -- Whatever the body, the table is left alone or takes one new account; the outbox is untouched.
  pub create-OpensOne :
      (body : V) (s : Q)
      → let s' = (create f b q correlation new_id now body s).1 in
        OpensOne (i.accounts s) (i.accounts s') × (i.messages s' ≡ i.messages s)
  create-OpensOne body s =
      let (answers, same) = create-Creates f b q i correlation new_id now body s in
      (answers-OpensOne (b.bind_account body) (tags.account_tags body) _ _ _ answers, same)
