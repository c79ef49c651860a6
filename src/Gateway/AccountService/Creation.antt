-- ===== src/Gateway/AccountService/Creation.antt =====
-- What `CreateAccount` comes back with and leaves in the table, on every reply of PostgreSQL.
use innoscripta_banking_ledg.Base.{
  ℕ, ℤ, String, ◌≡◌, ◌≢◌, ◌⊎◌, inl, inr, refl, sym, ◌∙◌, subst, true, Option, none, some, List, [],
  ◌∷◌, ◌++◌, find?, str_eq, arith,
}
use innoscripta_banking_ledg.Domain.Error.{Error, external, wrapped, duplicate_national_id}
use innoscripta_banking_ledg.Domain.Result.{Result, ok, err}
use innoscripta_banking_ledg.Domain.Account.{Account, new_account}
use innoscripta_banking_ledg.Platform.Reply.{Reply, done, fault, Found, Wrote}
use innoscripta_banking_ledg.Platform.Schema.{accounts_schema}
use innoscripta_banking_ledg.Platform.Querier.{Querier, IsQuerier}
use innoscripta_banking_ledg.Data.AccountRepository as AccountRepository
use innoscripta_banking_ledg.Gateway.AccountService.{
  stored_account, store_account, after_lookup, create_account,
}

abbrev pub Inserted : Account → List Account → List Account → Type 0
Inserted acc before after = (after ≡ before ++ acc ∷ []) × (accounts_schema after ≡ true)

module _ (new_id now : ℕ) (owner_name national_id : String) (initial_balance : ℤ)
    (currency : String) where
  -- Why nothing has been stored.
  abbrev pub NotOpened : List Account → Error → Type 0
  NotOpened before e =
      ((e ≡ duplicate_national_id national_id)
        × (find? (λ row. str_eq row.national_id national_id) before ≢ none))
      ⊎ ((new_account new_id now owner_name national_id initial_balance currency ≡ err e)
          ⊎ (e ≡ wrapped external))

  abbrev pub Opens : List Account → List Account → Result Account → Type 0
  Opens before after (ok acc) =
      (new_account new_id now owner_name national_id initial_balance currency ≡ ok acc)
      × (find? (λ row. str_eq row.national_id national_id) before ≡ none)
      × Inserted acc before after
  Opens before after (err e) =
      ((after ≡ before) × NotOpened before e)
      ⊎ ((e ≡ wrapped external)
          × ((acc : Account) × (new_account new_id now owner_name national_id initial_balance
                  currency
                ≡ ok acc)
              × Inserted acc before after))

  module _ {B Q : Type 0} (q : Querier B Q) (i : IsQuerier q) where
    created-Opens :
        (before after : List Account) (acc : Account)
        → find? (λ row. str_eq row.national_id national_id) before ≡ none
        → new_account new_id now owner_name national_id initial_balance currency ≡ ok acc
        → (r : Reply (Unit {0})) → Wrote accounts_schema before (before ++ acc ∷ []) r after
        → Opens before after (stored_account q acc (AccountRepository.created r))
    unfolding stored_account
    created-Opens before after acc missing made (done _) w = (made, missing, w)
    created-Opens before after acc missing made fault (inl same) = inl (same, inr (inr refl))
    created-Opens before after acc missing made fault (inr w) = inr (refl, (acc, made, w))

    store-Opens :
        (before : List Account) (s : Q)
        → i.accounts s ≡ before
        → find? (λ row. str_eq row.national_id national_id) before ≡ none
        → (r : Result Account)
        → new_account new_id now owner_name national_id initial_balance currency ≡ r
        → let (r', s') = store_account q r s in
          Opens before (i.accounts s') r' × (i.messages s' ≡ i.messages s)
    unfolding store_account stored_account AccountRepository.create
    store-Opens before s same missing (err e) made = (inl (same, inr (inl made)), refl)
    store-Opens before s same missing (ok acc) made = (
      created-Opens before _ acc missing made _ (
          subst
            (λ l.
              Wrote accounts_schema l (l ++ acc ∷ []) (q.insert_account acc s).0
                (i.accounts (q.insert_account acc s).1))
            same (i.insert_account_writes acc s)),
      i.insert_account_keeps acc s,
    )

    lookup-Opens :
        (before : List Account) (s : Q)
        → i.accounts s ≡ before
        → (r : Reply (Option Account)) → Found (λ row. str_eq row.national_id national_id) before r
        → let (r', s') =
            after_lookup q new_id now owner_name national_id initial_balance currency
              (AccountRepository.account_or_nil r)
              s in
          Opens before (i.accounts s') r' × (i.messages s' ≡ i.messages s)
    unfolding after_lookup
    lookup-Opens before s same fault _ = (inl (same, inr (inr refl)), refl)
    lookup-Opens before s same (done (some a)) found = (inl (same, inl (refl, ground arith)), refl)
    lookup-Opens before s same (done none) found = store-Opens before s same (sym found) _ refl

    -- `CreateAccount` on every reply of PostgreSQL: success has put the account that `NewAccount` makes
    -- behind the others, none of which had its national ID, and the constraints hold; a taken
    -- national ID or an invalid account is an error and nothing changes; after any other error
    -- nothing has changed or that account has been put behind the others. The outbox is untouched.
    pub create_account-Opens :
        (s : Q)
        → let (r, s') =
            create_account q new_id now owner_name national_id initial_balance currency s in
          Opens (i.accounts s) (i.accounts s') r × (i.messages s' ≡ i.messages s)
    unfolding create_account AccountRepository.get_by_national_id
    create_account-Opens s =
        let (accounts, messages) =
          i.select_account_keeps (λ row. str_eq row.national_id national_id) s in
        let (opens, kept) =
          lookup-Opens (i.accounts s) _ accounts _
            (i.select_account_finds (λ row. str_eq row.national_id national_id) s) in
        (opens, kept ∙ messages)
