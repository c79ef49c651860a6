-- ===== src/Processor/WorkerPool/Registry.antt =====
-- The map of the channels, and a call that has the pool for itself.
use innoscripta_banking_ledg.Base.{
  ℕ, ◌≡◌, sym, ◌∙◌, ap, subst, Bool, true, false, none, some, ◌==◌, Option, arith, if◌then◌else◌,
}
use mathlib.Core.Option as Option
use innoscripta_banking_ledg.Domain.Shared.{TransactionRequest}
use innoscripta_banking_ledg.Domain.Result.{Result, err, Exec}
use innoscripta_banking_ledg.Processor.WorkerPool.{
  Phase, absent, registered, running, sent, over, refused, Call, receive_from, update, send,
  PoolState, set_call, register, remove_channel, submitted, submission_failed, receive, clean, work,
  process_alone, Step, enter, accept, refuse, execute, finish, answer, elsewhere, Run, start, next,
}
use innoscripta_banking_ledg.Processor.WorkerPool.Phases.{
  some_inj, none_ne_some, closed_request, received_request, sent_request,
}

received_phase : (c c' : Call) → receive_from c ≡ some c' → c'.phase ≡ c.phase
received_phase c c' e = ground arith

sent_phase : (r : Result (Unit {0})) (c c' : Call) → send r c ≡ some c' → c'.phase ≡ c.phase
sent_phase r c c' e = ground arith

module _ {S : Type 0} where
  -- What lies behind the base service, and what the call has returned.
  abbrev pub seen : ℕ → PoolState S → S × Option (Result (Unit {0}))
  seen n s = (s.world, (s.calls n).returned)

  -- The call whose channel the map holds under an ID.
  abbrev pub channel_under : ℕ → PoolState S → Option ℕ
  channel_under id s = s.results id

module _ {S : Type 0} (base : TransactionRequest → ℕ → Exec S (Unit {0})) where
  -- A call that has the pool for itself, as each has while the consumer handles one message after the
  -- other, is the call of the base service: it comes to an end, returns what that returns and leaves
  -- what that leaves. Its channel is out of the map, and the others are where they were.
  pub process_alone-base :
      (n : ℕ) (request : TransactionRequest) (now : ℕ) (s : PoolState S)
      → let (r, world) = base request now s.world in
        (Option.map (seen n) (process_alone base n request now s) ≡ some (world, some r))
        × ((id : ℕ)
            → Option.map (channel_under id) (process_alone base n request now s)
              ≡ some (if request.transaction_id == id then none else s.results id))
  unfolding process_alone remove_channel
  process_alone-base n request now s = (ground arith, λ id. ground arith)

-- The call has not come to its end.
abbrev pub is_live : Phase → Bool
is_live registered = true
is_live running = true
is_live sent = true
is_live _ = false

module _ {S : Type 0} where
  -- The map holds channels of calls that are not at their end, each under the ID of its transaction.
  abbrev pub IsRegistered : PoolState S → Type 0
  IsRegistered s =
      (id n : ℕ)
      → s.results id ≡ some n
      → (is_live (s.calls n).phase ≡ true) × ((s.calls n).request.transaction_id ≡ id)

  register-IsRegistered :
      (n : ℕ) (request : TransactionRequest) (s : PoolState S)
      → (s.calls n).phase ≡ absent
      → IsRegistered s
      → IsRegistered (register n request s)
  unfolding register
  register-IsRegistered n request s p h id m e = ground (arith, h id m)

  submitted-IsRegistered :
      (n : ℕ) (s : PoolState S)
      → (s.calls n).phase ≡ registered
      → IsRegistered s
      → IsRegistered (submitted n s)
  unfolding submitted
  submitted-IsRegistered n s p h id m e = ground (arith, h id m)

  -- A call whose phase and request an operation keeps, or which it leaves live.
  set_call-IsRegistered :
      (n : ℕ) (s s' : PoolState S) (o : Option Call)
      → ((c : Call)
          → o ≡ some c
          → (is_live c.phase ≡ is_live (s.calls n).phase) × (c.request ≡ (s.calls n).request))
      → set_call n s o ≡ some s'
      → IsRegistered s
      → IsRegistered s'
  set_call-IsRegistered n s s' none keeps e h = absurd (none_ne_some e)
  set_call-IsRegistered n s s' (some c) keeps e h =
      subst IsRegistered (some_inj e) (λ id m r. ground (arith, h id m, keeps c))

  -- A call that takes its channel out of the map.
  removed-IsRegistered :
      (n : ℕ) (s s' : PoolState S) (o : Option Call)
      → ((c : Call) → o ≡ some c → c.request ≡ (s.calls n).request)
      → set_call n
          (record s { results = update s.results (s.calls n).request.transaction_id none })
          o
        ≡ some s'
      → IsRegistered s
      → IsRegistered s'
  removed-IsRegistered n s s' none keeps e h = absurd (none_ne_some e)
  removed-IsRegistered n s s' (some c) keeps e h =
      subst IsRegistered (some_inj e) (λ id m r. ground (arith, h id m, keeps c))

module _ {S : Type 0} (base : TransactionRequest → ℕ → Exec S (Unit {0}))
    (Admits : TransactionRequest → Type 0) (Other : S → S → Type 0) where
  Step-IsRegistered :
      {s s' : PoolState S} → Step base Admits Other s s' → IsRegistered s → IsRegistered s'
  unfolding submission_failed remove_channel receive clean work
  Step-IsRegistered (enter n request s p _) h = register-IsRegistered n request s p h
  Step-IsRegistered (accept n s p) h = submitted-IsRegistered n s p h
  Step-IsRegistered (refuse n e s s' p done) h =
      removed-IsRegistered n s s' _
        (closed_request (record (s.calls n) { phase = refused; returned = some (err e) })) done h
  Step-IsRegistered (execute n now s s' p done) h =
      let (r, world) = base (s.calls n).request now s.world in
      set_call-IsRegistered n (record s { world = world }) s' _
        (λ c e. (
          ap is_live (sent_phase r (record (s.calls n) { phase = sent }) c e) ∙ sym (ap is_live p),
          sent_request r (record (s.calls n) { phase = sent }) c e,
        ))
        done h
  Step-IsRegistered (finish n s s' p done) h =
      removed-IsRegistered n s s' _ (closed_request (record (s.calls n) { phase = over })) done h
  Step-IsRegistered (elsewhere s world _) h = h
  Step-IsRegistered (answer n s s' waiting empty done) h =
      set_call-IsRegistered n s s' _
        (λ c e. (ap is_live (received_phase (s.calls n) c e), received_request (s.calls n) c e))
        done h

  -- However the calls and their tasks take turns, the map never holds on to a channel: whatever it has
  -- under an ID is the channel of a call for that transaction that is not at its end, if that was so
  -- at the start.
  pub Run-IsRegistered :
      {s s' : PoolState S} → Run base Admits Other s s' → IsRegistered s → IsRegistered s'
  Run-IsRegistered (start s) h = h
  Run-IsRegistered (next run step) h = Step-IsRegistered step (Run-IsRegistered run h)
