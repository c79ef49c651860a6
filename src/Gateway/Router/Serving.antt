-- ===== src/Gateway/Router/Serving.antt =====
-- What a call of the gateway can change, and the correlation ID that its answer carries.
use innoscripta_banking_ledg.Base.{ℕ, String, ◌≡◌, inl, refl}
use innoscripta_banking_ledg.Platform.Querier.{Querier, IsQuerier}
use innoscripta_banking_ledg.Platform.Collection.{Collection, IsCollection}
use innoscripta_banking_ledg.Gateway.TransactionService.{MessagePublisher, Channels}
use innoscripta_banking_ledg.Gateway.Dto.{Binding, IsBinding, Formats, IsFormats}
use innoscripta_banking_ledg.Gateway.TransactionHandler.{Fresh}
use innoscripta_banking_ledg.Gateway.TransactionHandler.Endpoints as TransactionEndpoints
use innoscripta_banking_ledg.Gateway.TransactionHandler.Reading.{get_by_id-Answers}
use innoscripta_banking_ledg.Gateway.TransactionHandler.Listing.{get_by_account_id_keeps}
use innoscripta_banking_ledg.Gateway.TransactionHandler.Publishing.{Publishes, create-Publishes}
use innoscripta_banking_ledg.Gateway.AccountHandler.Endpoints as AccountEndpoints
use innoscripta_banking_ledg.Gateway.AccountHandler.Opening.{OpensOne, create-OpensOne}
use innoscripta_banking_ledg.Gateway.Router.{
  Route, post_account, post_transaction, get_account, get_account_transactions, get_transaction,
  HttpRequest, Backends, handle_route, serve,
}

module _ {V B P M T : Type 0} (f : Formats) (texts : IsFormats f) (b : Binding V)
    (tags : IsBinding b) (q : Querier B P) (i : IsQuerier q) (c : Collection M) (j : IsCollection c)
    (producer : MessagePublisher T) where
  -- The outbox and the ledger are untouched; the accounts are, or a new one is behind the others; the
  -- topic is, or has been handed one valid request.
  abbrev pub Called : Backends P M T → Backends P M T → Type 0
  Called w w' =
      OpensOne (i.accounts w.world.pg) (i.accounts w'.world.pg)
      × (i.messages w'.world.pg ≡ i.messages w.world.pg)
      × (j.entries w'.world.mongo ≡ j.entries w.world.mongo)
      × Publishes producer w.topic w'.topic

  handle_route-Called :
      (correlation : String) (fresh : Fresh) (body query : V) (route : Route) (w : Backends P M T)
      → Called w (handle_route f b q c producer correlation fresh body query route w).1
  unfolding handle_route
  handle_route-Called correlation fresh body query post_account w =
      let (opens, same) =
        create-OpensOne f b tags q i correlation fresh.id fresh.now body w.world.pg in
      (opens, same, refl, inl refl)
  handle_route-Called correlation fresh body query post_transaction w =
      let channels : Channels M T = record { mongo = w.world.mongo; topic = w.topic } in
      (
        inl refl,
        refl,
        (TransactionEndpoints.create-Answers f texts b tags c j correlation producer fresh body
            channels).1,
        create-Publishes f texts b tags c j correlation producer fresh body channels,
      )
  handle_route-Called correlation fresh body query (get_account id) w =
      let (_, accounts, messages) =
        AccountEndpoints.get_by_id-Shows f b q i correlation id w.world.pg in
      (inl accounts, messages, refl, inl refl)
  handle_route-Called correlation fresh body query (get_account_transactions id) w = (
    inl refl,
    refl,
    get_by_account_id_keeps f b tags c j correlation id query w.world.mongo,
    inl refl,
  )
  handle_route-Called correlation fresh body query (get_transaction id) w =
      (inl refl, refl, (get_by_id-Answers f b c j correlation id w.world.mongo).1, inl refl)

  -- Whatever the request and whatever the databases answer, a call of the gateway leaves the outbox
  -- and the ledger untouched; of the accounts it changes nothing, or puts behind them one new account
  -- with a balance that is not negative and fits 64 bits, and the constraints hold; the topic is left
  -- alone or is handed one request, whose amount fits 64 bits and which the validator of the
  -- processor accepts.
  pub serve-Called :
      (new_correlation : ℕ) (fresh : Fresh) (request : HttpRequest V) (w : Backends P M T)
      → Called w (serve f b q c producer new_correlation fresh request w).1
  unfolding serve
  serve-Called new_correlation fresh request w =
      handle_route-Called _ fresh request.body request.query request.route w
