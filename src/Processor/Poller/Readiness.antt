-- ===== src/Processor/Poller/Readiness.antt =====
-- Pending messages in hand that are what the outbox has, and what is left to do with them.
use innoscripta_banking_ledg.Base.{
  ℤ, ◌<◌, ◌≡◌, inl, inr, refl, sym, ◌∙◌, ap, subst, true, not, Bool-cases, List, [], ◌∷◌, ◌==◌,
  all_of, distinct, All, All-update_all, find?_behind, find?-update_all_other, arith,
}
use mathlib.Core.List.{Memᴰ}
use innoscripta_banking_ledg.Domain.Outbox.{Message}
use innoscripta_banking_ledg.Domain.Outbox.Content.{
  content, contents, contents-update_all, outbox_schema_of_contents,
}
use innoscripta_banking_ledg.Platform.Schema.{outbox_schema}
use innoscripta_banking_ledg.Data.OutboxRepository.{is_pending}
use innoscripta_banking_ledg.Data.OutboxRepository.Writes.{stamped}
use innoscripta_banking_ledg.Processor.Poller.Effort.{effort, efforts, HasRoom, sum_of-update_all}
use innoscripta_banking_ledg.Processor.Poller.Restamping.{IsCurrent}
use innoscripta_banking_ledg.Processor.Poller.Settling.{Settled}

module _ {B : Type 0} (limit : ℤ) where
  -- An outbox that satisfies its constraints and has room to count the attempts.
  pub record IsOrderly (queue : List (Message B)) : Type 0 where
    pub schema : outbox_schema queue ≡ true
    pub room : All (HasRoom limit) queue

  -- Pending messages that a query has given, each once and each as it is in the outbox.
  pub record AreReady (messages queue : List (Message B)) : Type 0 where
    pub once : distinct (λ a b. a.id == b.id) messages ≡ true
    pub pending : All (λ m. is_pending m.status ≡ true) messages
    pub current : All (λ m. IsCurrent m queue) messages

  others-IsCurrent :
      (message : Message B) (f : Message B → Message B) (queue rest : List (Message B))
      → ((m : Message B) → content (f m) ≡ content m)
      → all_of (λ y. not (message.id == y.id)) rest ≡ true
      → All (λ m. IsCurrent m queue) rest
      → All (λ m. IsCurrent m (stamped message.id f queue)) rest
  others-IsCurrent message f queue [] same others all = tt
  others-IsCurrent message f queue (m ∷ rest) same others (is, all) = (
    find?-update_all_other (λ r. r.id) message.id f (λ r. ap (λ (x : Message B). x.id) (same r))
          m.id (ground arith) queue
        ∙ is,
    others-IsCurrent message f queue rest same (ground arith) all,
  )

  -- After a message has been settled the outbox is orderly, the rest is ready, and there is less to do.
  pub Settled-rest :
      (message : Message B) (rest before after : List (Message B))
      → IsOrderly before
      → AreReady (message ∷ rest) before
      → Settled limit message before after
      → IsOrderly after × AreReady rest after × (efforts limit after < efforts limit before)
  Settled-rest message rest before after o ready (f, (same, e), less, room) =
      let ids : distinct (λ (a : Message B) b. a.id == b.id) before ≡ true =
        ground (arith, o.schema) in
      let found = ready.current.0 in
      (
        record {
          schema =
              outbox_schema_of_contents before after
                (ap contents e ∙ contents-update_all (λ row. row.id == message.id) f same before)
                o.schema;
          room = subst (All (HasRoom limit)) (sym e) (
              All-update_all (λ r. r.id) message.id f (HasRoom limit) before message ids found
                o.room room);
        },
        record {
          once = ground (arith, ready.once);
          pending = ready.pending.1;
          current =
              subst (λ q. All (λ m. IsCurrent m q) rest) (sym e)
                (others-IsCurrent message f before rest same (ground (arith, ready.once))
                  ready.current.1);
        },
        rw e (
            omega (
              arith,
              sum_of-update_all (λ r. r.id) message.id (effort limit) f before message ids found,
            )),
      )

  pub IsCurrent-of_mem :
      (m : Message B) (queue : List (Message B))
      → distinct (λ a b. a.id == b.id) queue ≡ true
      → Memᴰ m queue
      → IsCurrent m queue
  IsCurrent-of_mem m [] d at = elim at [ ]
  IsCurrent-of_mem m (x ∷ queue) d (Memᴰ.head e) = ground arith
  IsCurrent-of_mem m (x ∷ queue) d (Memᴰ.tail at) =
      ground (arith, IsCurrent-of_mem m queue, find?_behind (λ r. r.id) x m.id queue)

  -- Nothing pending, nothing to do; and the other way round.
  pub efforts-eq-zero :
      (queue : List (Message B))
      → ((m : Message B) → Memᴰ m queue → is_pending m.status ≡ true → ⊥)
      → efforts limit queue ≡ 0
  efforts-eq-zero [] none_pending = refl
  efforts-eq-zero (m ∷ queue) none_pending = elim (Bool-cases (is_pending m.status)) [
    | inl is ↦ absurd (none_pending m (Memᴰ.head refl) is)
    | inr not_pending ↦
        ground (arith, efforts-eq-zero queue (λ x at. none_pending x (Memᴰ.tail at)))
  ]

  pub none_pending_of_efforts :
      (queue : List (Message B))
      → efforts limit queue ≡ 0
      → all_of (λ row. not (is_pending row.status)) queue ≡ true
  none_pending_of_efforts [] e = refl
  none_pending_of_efforts (m ∷ queue) e = ground (arith, none_pending_of_efforts queue)
