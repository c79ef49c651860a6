-- ===== src/Tests/Polling.antt =====
-- The loop of the poller over an outbox in memory that answers.
use innoscripta_banking_ledg.Base.{
  pos, ◌+ℤ◌, ◌-ℤ◌, wrap64, pos_part, ◌≤◌, ◌≡◌, ◌⊎◌, inl, inr, refl, sym, ◌∙◌, ap, Bool, true, not,
  ℕ, zero, suc, List, [], ◌∷◌, ◌==◌, Bool-cases, map, length, count, update_all, all_of, distinct,
  arith,
}
use mathlib.Core.List.{Memᴰ}
use innoscripta_banking_ledg.Domain.Shared.{completed}
use innoscripta_banking_ledg.Domain.Error.{errors_is}
use innoscripta_banking_ledg.Domain.Result.{ok}
use innoscripta_banking_ledg.Domain.Ledger.{Entry}
use innoscripta_banking_ledg.Domain.Outbox.{Message}
use innoscripta_banking_ledg.Domain.Outbox.Content.{contents-update_all, outbox_schema_of_contents}
use innoscripta_banking_ledg.Platform.Schema.{outbox_schema, FitsColumns}
use innoscripta_banking_ledg.Platform.World.{World}
use innoscripta_banking_ledg.Data.OutboxRepository.{
  is_pending, with_attempt, get_pending, increment_attempts,
}
use innoscripta_banking_ledg.Processor.Publisher.{publish_to_ledger}
use innoscripta_banking_ledg.Data.LedgerRepository.{get_by_transaction_id}
use innoscripta_banking_ledg.Data.LedgerRepository.Entries.{HasStatus}
use innoscripta_banking_ledg.Processor.Validator.{validate}
use innoscripta_banking_ledg.Processor.AccountManager.Posting.{Posting}
use innoscripta_banking_ledg.Processor.AccountManager.Success.{IsPostable}
use innoscripta_banking_ledg.Processor.Service.{process_transaction}
use innoscripta_banking_ledg.Processor.System.Settlement.{process_transaction_completes}
use innoscripta_banking_ledg.Processor.Poller.{process_pending_messages, tick, cancelled, start}
use innoscripta_banking_ledg.Processor.Poller.Draining.{start_drains}
use innoscripta_banking_ledg.Processor.Poller.Settling.{PollingAnswers}
use innoscripta_banking_ledg.Tests.InMemory.{
  Store, Documents, take_where, store_collection, store_collection-IsCollection, store_json,
  store_json-IsJson,
}
use innoscripta_banking_ledg.Tests.Steady.{
  steady_querier, steady_querier-IsQuerier, steady_querier-UpdatesAnswer, steady_collection,
  steady_collection-IsCollection, steady_collection-Answers, steady_postgres,
  steady_postgres-IsPostgres, steady_postgres-TransactionsAnswer, steady_querier-AccountsAnswer,
}
use innoscripta_banking_ledg.Tests.Samples.{
  alice, withdrawal_of_30, queued_entry, queued_store, world, poller,
}

module _ {A : Type 0} (p : A → Bool) where
  all_of-take_where :
      (t : A → Bool) (n : ℕ) (xs : List A)
      → all_of t xs ≡ true
      → all_of t (take_where p n xs) ≡ true
  all_of-take_where t zero xs h = refl
  all_of-take_where t (suc n) [] h = refl
  all_of-take_where t (suc n) (x ∷ xs) h =
      ground (arith, all_of-take_where t n xs, all_of-take_where t (suc n) xs)

  -- What is distinct stays so.
  take_where_once :
      (same : A → A → Bool) (n : ℕ) (xs : List A)
      → distinct same xs ≡ true
      → distinct same (take_where p n xs) ≡ true
  take_where_once same zero xs h = refl
  take_where_once same (suc n) [] h = refl
  take_where_once same (suc n) (x ∷ xs) h = ground (
    arith,
    all_of-take_where (λ y. not (same x y)) n xs,
    take_where_once same n xs,
    take_where_once same (suc n) xs,
  )

  -- What passes is there, unless there are as many as asked for.
  take_where_all :
      (n : ℕ) (xs : List A) (a : A)
      → Memᴰ a xs
      → p a ≡ true
      → Memᴰ a (take_where p n xs) ⊎ (n ≤ length (take_where p n xs))
  take_where_all zero xs a at h = inr (omega arith)
  take_where_all (suc n) [] a at h = elim at [ ]
  take_where_all (suc n) (x ∷ xs) a (Memᴰ.head e) h =
      rw (ap p (sym e) ∙ h, take_where) (inl (Memᴰ.head e))
  take_where_all (suc n) (x ∷ xs) a (Memᴰ.tail at) h = elim (Bool-cases (p x)) [
    | inr fails ↦ rw (fails, take_where) (take_where_all (suc n) xs a at h)
    | inl passes ↦
        rw (passes, take_where)
          (elim (take_where_all n xs a at h) [
            | inl there ↦ inl (Memᴰ.tail there)
            | inr full ↦ inr (omega arith)
          ])
  ]

attempted_schema :
    (id now : ℕ) (s : Store)
    → outbox_schema s.queue ≡ true
    → outbox_schema (update_all (λ (row : Message Entry). row.id == id) (with_attempt now) s.queue)
      ≡ true
attempted_schema id now s =
    outbox_schema_of_contents s.queue _
      (contents-update_all (λ row. row.id == id) (with_attempt now) (λ m. refl) s.queue)

steady_querier-PollingAnswers : PollingAnswers steady_querier steady_querier-IsQuerier
unfolding steady_querier-IsQuerier
steady_querier-PollingAnswers = record {
  updates = steady_querier-UpdatesAnswer;
  attempt_answers = λ id now s row schema found fits.
      (count (λ row. row.id == id) s.queue, rw (attempted_schema id now s schema) refl);
  fetch_answers = λ limit s positive schema. (
    take_where (λ row. is_pending row.status) (pos_part limit) s.queue,
    refl,
    take_where_once (λ row. is_pending row.status) (λ a b. a.id == b.id) (pos_part limit) s.queue
        (ground (arith, schema)),
    λ m at is. take_where_all (λ row. is_pending row.status) (pos_part limit) s.queue m at is,
  );
}

-- A ledger that is down, and the withdrawal in the outbox: three ticks, and the message is given up.
abbrev stuck_world : World Store Documents
stuck_world = record { pg = queued_store; mongo = record { docs = []; down = true } }

start_drains_example :
    all_of
      (λ row. not (is_pending row.status))
      (start poller steady_querier store_collection store_json
        (tick 13 ∷ tick 14 ∷ tick 15 ∷ [])
        stuck_world).pg.queue
    ≡ true
unfolding steady_querier-IsQuerier ◌+ℤ◌
start_drains_example =
    start_drains poller steady_querier steady_querier-IsQuerier store_collection
      store_collection-IsCollection store_json steady_querier-PollingAnswers (omega arith)
      (omega arith) (13 ∷ 14 ∷ 15 ∷ []) stuck_world
      (record { schema = refl; room = (λ h. omega arith, tt) }) (omega arith)

-- Two ticks leave the message pending, with two attempts.
two_ticks :
    map
      (λ (m : Message Entry). m.attempts)
      (start poller steady_querier store_collection store_json
        (tick 13 ∷ tick 14 ∷ cancelled ∷ [])
        stuck_world).pg.queue
    ≡ pos 2 ∷ []
unfolding start process_pending_messages get_pending publish_to_ledger increment_attempts ◌+ℤ◌
    get_by_transaction_id errors_is wrap64
two_ticks = refl

withdrawal_of_30-IsPostable : IsPostable withdrawal_of_30 alice
unfolding ◌-ℤ◌ ◌+ℤ◌
withdrawal_of_30-IsPostable = record {
  known = refl;
  allowed = record { currency = refl; positive = omega arith; covered = λ e. omega arith };
  fits = omega arith;
  covered = refl;
  version = omega arith;
}

alice-FitsColumns : FitsColumns (λ text. true) alice
alice-FitsColumns = record {
  owner_name = (refl, omega arith);
  national_id = (refl, omega arith);
  currency = (refl, omega arith);
  balance = omega arith;
  version = omega arith;
}

process_transaction_completes_example :
    let (r, w) =
      process_transaction steady_postgres steady_collection store_json withdrawal_of_30 12 world in
    let w' =
      start poller steady_querier steady_collection store_json
        (tick 13 ∷ tick 14 ∷ tick 15 ∷ [])
        w in
    (r ≡ ok tt)
    × HasStatus completed 55 w'.mongo.docs
    × Posting withdrawal_of_30 12 (alice ∷ []) w'.pg.rows
unfolding steady_postgres-IsPostgres steady_querier-IsQuerier steady_collection-IsCollection
    steady_postgres-TransactionsAnswer steady_querier-AccountsAnswer validate
process_transaction_completes_example =
    process_transaction_completes steady_postgres steady_postgres-IsPostgres steady_collection
      steady_collection-IsCollection store_json store_json-IsJson steady_postgres-TransactionsAnswer
      steady_querier-PollingAnswers steady_collection-Answers poller (omega arith) (omega arith)
      withdrawal_of_30 12 (13 ∷ 14 ∷ 15 ∷ []) world alice queued_entry withdrawal_of_30-IsPostable
      refl (omega arith) refl (alice-FitsColumns, tt) refl tt refl refl refl refl refl (omega arith)
