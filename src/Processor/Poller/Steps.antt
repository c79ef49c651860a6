-- ===== src/Processor/Poller/Steps.antt =====
-- What the poller does with one message: each step leaves the accounts and the contents of the
-- outbox alone and keeps the invariant between outbox and ledger.
use innoscripta_banking_ledg.Base.{
  ℕ, pos, ◌+ℤ◌, leb_ℤ, wrap64, ◌≡◌, ◌⊎◌, inl, inr, refl, sym, ◌∙◌, ap, subst, Bool-cases, some,
  Option-cases, ◌==◌, arith,
}
use innoscripta_banking_ledg.Domain.Shared.{completed, processed, failed_to_publish}
use innoscripta_banking_ledg.Domain.Result.{Result, ok, err}
use innoscripta_banking_ledg.Domain.Ledger.{Entry}
use innoscripta_banking_ledg.Domain.Outbox.{Json, Message}
use innoscripta_banking_ledg.Domain.Outbox.Content.{
  Fits, Fits-of_contents, content, contents, contents-update_all,
}
use innoscripta_banking_ledg.Platform.Querier.{Querier, IsQuerier}
use innoscripta_banking_ledg.Platform.Collection.{Collection, IsCollection}
use innoscripta_banking_ledg.Platform.World.{World}
use innoscripta_banking_ledg.Data.OutboxRepository.{
  increment_attempts, update_status, with_status, with_attempt,
}
use innoscripta_banking_ledg.Data.OutboxRepository.Writes.{
  stamped, Stamped-either, update_status_stamps, increment_attempts_stamps,
}
use innoscripta_banking_ledg.Data.LedgerRepository.Entries.{HasStatus}
use innoscripta_banking_ledg.Processor.Publisher.{publish_to_ledger}
use innoscripta_banking_ledg.Processor.Publisher.Completion.{KeepsCompleted}
use innoscripta_banking_ledg.Processor.Publisher.Delivery.{
  Delivers, publish_to_ledger-Delivers, publish_to_ledger_gives_up,
}
use innoscripta_banking_ledg.Processor.Poller.{
  Poller, give_up, after_increment, retry_later, process_message,
}
use innoscripta_banking_ledg.Processor.Poller.Delivered.{
  Polled, Polled-trans, AllDelivered, Delivered, Delivered-mono, Delivered-stamped,
  Delivered-marked, Delivered-either,
}

module _ {B P M : Type 0} (poller : Poller) (q : Querier B P) (i : IsQuerier q) (c : Collection M)
    (j : IsCollection c) (json : Json B) (now : ℕ) where
  -- A step that polls, and keeps the invariant as long as the message in hand is in the table.
  abbrev pub Steps : Message B → World P M → World P M → Type 0
  Steps message w w' =
      Polled i j w w'
      × (Fits message (i.messages w.pg) → AllDelivered i j json w → AllDelivered i j json w')

  -- An update of the outbox alone that marks nothing as processed.
  stamp-Steps :
      (message : Message B) (f : Message B → Message B)
      → ((row : Message B) → content (f row) ≡ content row)
      → ((row : Message B) → (f row).status ≡ processed → row.status ≡ processed)
      → (w w' : World P M) → w'.mongo ≡ w.mongo
      → i.accounts w'.pg ≡ i.accounts w.pg
      → (i.messages w'.pg ≡ i.messages w.pg)
        ⊎ (i.messages w'.pg ≡ stamped message.id f (i.messages w.pg))
      → Steps message w w'
  stamp-Steps message f same status w w' mongo accounts either = (
    (
      accounts,
      elim either [
        | inl e ↦ ap contents e
        | inr e ↦
            ap contents e
            ∙ contents-update_all (λ row. row.id == message.id) f same (i.messages w.pg)
      ],
      subst (λ m. KeepsCompleted (j.entries w.mongo) (j.entries m)) (sym mongo) (λ t h. h),
    ),
    λ fits d.
        subst (λ m. Delivered json (j.entries m) (i.messages w'.pg)) (sym mongo)
          (Delivered-either json (j.entries w.mongo) (i.messages w.pg)
            (stamped message.id f (i.messages w.pg)) (i.messages w'.pg) either d
            (Delivered-stamped json (j.entries w.mongo) message.id f
              (λ row. ap (λ (m : Message B). m.payload) (same row)) status (i.messages w.pg) d)),
  )

  -- The mark that follows the ledger.
  marked-Steps :
      (message : Message B) (entry : Entry)
      → json.unmarshal message.payload ≡ some entry
      → (w w' : World P M) → KeepsCompleted (j.entries w.mongo) (j.entries w'.mongo)
      → HasStatus completed entry.transaction_id (j.entries w'.mongo)
      → i.messages w'.pg ≡ stamped message.id (with_status processed now) (i.messages w.pg)
      → i.accounts w'.pg ≡ i.accounts w.pg
      → Steps message w w'
  marked-Steps message entry u w w' keeps has row accounts = (
    (
      accounts,
      ap contents row
          ∙ contents-update_all (λ row. row.id == message.id) (with_status processed now)
              (λ m. refl) (i.messages w.pg),
      keeps,
    ),
    λ fits d. subst (Delivered json (j.entries w'.mongo)) (sym row) (
        Delivered-marked json (j.entries w'.mongo) message now entry u has (i.messages w.pg) fits
          (Delivered-mono json _ _ (i.messages w.pg) keeps d)),
  )

  mark-Steps :
      (message : Message B) (entry : Entry)
      → json.unmarshal message.payload ≡ some entry
      → (w w' : World P M) (r : Result (Unit {0})) → Delivers q i c j json message now entry w r w'
      → Steps message w w'
  mark-Steps message entry u w w' (ok _) (others, keeps, (has, row), accounts) =
      marked-Steps message entry u w w' keeps has row accounts
  mark-Steps message entry u w w' (err _) (others, keeps, inl row, accounts) = (
    (accounts, ap contents row, keeps),
    λ fits d.
        subst (Delivered json (j.entries w'.mongo)) (sym row)
          (Delivered-mono json _ _ (i.messages w.pg) keeps d),
  )
  mark-Steps message entry u w w' (err _) (others, keeps, inr (has, row), accounts) =
      marked-Steps message entry u w w' keeps has row accounts

  Steps-trans :
      (message : Message B) (w w' w'' : World P M)
      → Steps message w w'
      → Steps message w' w''
      → Steps message w w''
  Steps-trans message w w' w'' (p, d) (p', d') = (
    Polled-trans i j w w' w'' p p',
    λ fits all. d' (Fits-of_contents message _ _ p.1 fits) (d fits all),
  )

  stay : (message : Message B) (w : World P M) → Steps message w w
  stay message w = ((refl, refl, λ t h. h), λ fits d. d)

  publish-Steps :
      (message : Message B) (w : World P M)
      → Steps message w (publish_to_ledger q c json message now w).1
  publish-Steps message w = elim (Option-cases (json.unmarshal message.payload)) [
    | inl unreadable ↦
        (let (_, mongo, accounts, either) =
            publish_to_ledger_gives_up q i c j json message now w unreadable in
          stamp-Steps message (with_status failed_to_publish now) (λ m. refl) (λ m h. ground arith)
            w _ mongo accounts either)
    | inr (entry, u) ↦
        mark-Steps message entry u w _ _
          (publish_to_ledger-Delivers q i c j json message now entry w u)
  ]

  give_up-Steps :
      (message : Message B) (w : World P M)
      → Steps message w (record w { pg = give_up poller q c json now message w.pg })
  unfolding give_up
  give_up-Steps message w =
      let (stamps, accounts) = update_status_stamps q i message.id failed_to_publish now w.pg in
      elim (Bool-cases (leb_ℤ poller.max_retry_attempts (wrap64 (message.attempts +ℤ pos 1)))) [
        | inl last ↦ rw last (
            stamp-Steps message (with_status failed_to_publish now) (λ m. refl)
              (λ m h. ground arith) w
              (record w { pg = (update_status q message.id failed_to_publish now w.pg).1 }) refl
              accounts (Stamped-either message.id (with_status failed_to_publish now) _ _ _ stamps))
        | inr more ↦ rw more (stay message w)
      ]

  after_increment-Steps :
      (message : Message B) (r : Result (Unit {0})) (w : World P M)
      → Steps message w (record w { pg = after_increment poller q c json now message r w.pg })
  unfolding after_increment
  after_increment-Steps message (ok _) w = give_up-Steps message w
  after_increment-Steps message (err _) w = stay message w

  retry-Steps :
      (message : Message B) (r : Result (Unit {0})) (w : World P M)
      → Steps message w (retry_later poller q c json now message r w)
  unfolding retry_later
  retry-Steps message (ok _) w = stay message w
  retry-Steps message (err _) w =
      let (stamps, accounts) = increment_attempts_stamps q i message.id now w.pg in
      let w' = record w { pg = (increment_attempts q message.id now w.pg).1 } in
      Steps-trans message w w' _
        (stamp-Steps message (with_attempt now) (λ m. refl) (λ m h. h) w w' refl accounts
          (Stamped-either message.id (with_attempt now) _ _ _ stamps))
        (after_increment-Steps message _ w')

  pub process_message-Steps :
      (message : Message B) (w : World P M)
      → Steps message w (process_message poller q c json now message w)
  unfolding process_message
  process_message-Steps message w =
      let w' = (publish_to_ledger q c json message now w).1 in
      Steps-trans message w w' _ (publish-Steps message w) (retry-Steps message _ w')
