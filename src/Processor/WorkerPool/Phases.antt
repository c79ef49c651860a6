-- ===== src/Processor/WorkerPool/Phases.antt =====
-- What holds of a call in each of its phases, and what each operation of it comes to.
use innoscripta_banking_ledg.Base.{
  ℕ, ◌≡◌, ◌≢◌, ◌⊎◌, inl, inr, refl, sym, ◌∙◌, subst, Bool, true, false, none, some, ◌==◌,
  Bool-cases, arith,
}
use innoscripta_banking_ledg.Domain.Shared.{TransactionRequest}
use innoscripta_banking_ledg.Domain.Error.{Error}
use innoscripta_banking_ledg.Domain.Result.{Result, err, Exec}
use innoscripta_banking_ledg.Processor.WorkerPool.{
  Phase, absent, registered, running, sent, over, refused, Call, send, close_channel, receive_from,
  update, PoolState, IsWaiting, remove_channel, submission_failed, clean, work,
}

pub some_inj {ℓ} : {A : Type ℓ} {a b : A} → some a ≡ some b → a ≡ b
some_inj h = cc

pub none_ne_some {ℓ} : {A : Type ℓ} {a : A} → none ≢ some a
none_ne_some h = cc

pub closed_request : (c c' : Call) → close_channel c ≡ some c' → c'.request ≡ c.request
closed_request c c' e = ground arith

pub received_request : (c c' : Call) → receive_from c ≡ some c' → c'.request ≡ c.request
received_request c c' e = ground arith

pub sent_request :
    (r : Result (Unit {0})) (c c' : Call) → send r c ≡ some c' → c'.request ≡ c.request
sent_request r c c' e = ground arith

module _ {ℓ κ} {A : Type ℓ} (P : A → Type κ) where
  pub update_keeps :
      (f : ℕ → A) (n : ℕ) (a : A) → P a → ((j : ℕ) → P (f j)) → (j : ℕ) → P (update f n a j)
  update_keeps f n a new old j = elim (Bool-cases (n == j)) [
    | inl here ↦ rw here new
    | inr there ↦ rw there (old j)
  ]

module _ {S : Type 0} (base : TransactionRequest → ℕ → Exec S (Unit {0})) where
  -- The base service has come back with this result for the request.
  abbrev pub Executed : TransactionRequest → Result (Unit {0}) → Type 0
  Executed request r = (world : S) × (now : ℕ) × ((base request now world).0 ≡ r)

  -- The result is in the channel, or the call has returned it.
  abbrev pub Delivers : Call → Type 0
  Delivers c =
      (r : Result (Unit {0})) × Executed c.request r
      × (((c.buffer ≡ some r) × (c.returned ≡ none)) ⊎ ((c.buffer ≡ none) × (c.returned ≡ some r)))

  abbrev pub IsOpen : Call → Type 0
  IsOpen c = (c.buffer ≡ none) × (c.closed ≡ false) × (c.returned ≡ none)

  abbrev pub InPhase : Phase → Call → Type 0
  InPhase absent c = c.returned ≡ none
  InPhase registered c = IsOpen c
  InPhase running c = IsOpen c
  InPhase sent c = (c.closed ≡ false) × Delivers c
  InPhase over c = (c.closed ≡ true) × Delivers c
  InPhase refused c =
      (c.closed ≡ true) × (c.buffer ≡ none) × ((e : Error) × (c.returned ≡ some (err e)))

  abbrev pub IsConsistent : PoolState S → Type 0
  IsConsistent s = (n : ℕ) → InPhase (s.calls n).phase (s.calls n)

  pub in_phase : (p : Phase) (c : Call) → c.phase ≡ p → InPhase c.phase c → InPhase p c
  in_phase p c e h = subst (λ q. InPhase q c) e h

  -- What a task that runs leaves.
  abbrev pub worked : ℕ → ℕ → PoolState S → PoolState S
  worked n now s =
      let (r, world) = base (s.calls n).request now s.world in
      record s {
        world = world;
        calls = update s.calls n (record (s.calls n) { phase = sent; buffer = some r });
      }

  pub work_runs :
      (n now : ℕ) (s : PoolState S)
      → (s.calls n).phase ≡ running
      → IsConsistent s
      → work base n now s ≡ some (worked n now s)
  unfolding work
  work_runs n now s p h =
      let (empty, open', _) = in_phase running (s.calls n) p (h n) in rw (open', empty) refl

  abbrev pub removed : ℕ → Call → PoolState S → PoolState S
  removed n c s = record s {
    results = update s.results c.request.transaction_id none;
    calls = update s.calls n (record c { closed = true });
  }

  pub clean_runs :
      (n : ℕ) (s : PoolState S)
      → (s.calls n).phase ≡ sent
      → IsConsistent s
      → clean n s ≡ some (removed n (record (s.calls n) { phase = over }) s)
  unfolding clean remove_channel
  clean_runs n s p h = rw (in_phase sent (s.calls n) p (h n)).0 refl

  pub submission_failed_runs :
      (n : ℕ) (e : Error) (s : PoolState S)
      → (s.calls n).phase ≡ registered
      → IsConsistent s
      → submission_failed n e s
        ≡ some (removed n (record (s.calls n) { phase = refused; returned = some (err e) }) s)
  unfolding submission_failed remove_channel
  submission_failed_runs n e s p h = rw (in_phase registered (s.calls n) p (h n)).1 refl

  -- What a receive of a result that is there leaves.
  abbrev pub taken : Result (Unit {0}) → Call → Call
  taken r c = record c { buffer = none; returned = some r }

  pub receive_takes :
      (b : Bool) (c : Call) (r : Result (Unit {0}))
      → c.closed ≡ b
      → c.buffer ≡ some r
      → receive_from c ≡ some (taken r c)
  receive_takes true c r closed full = rw (closed, full) refl
  receive_takes false c r closed full = rw (closed, full) refl

  receive_blocks : (c : Call) → c.closed ≡ false → c.buffer ≡ none → receive_from c ≡ none
  receive_blocks c closed empty = rw (closed, empty) refl

  delivered_once :
      (b : Bool) (c c' : Call)
      → c.closed ≡ b
      → c.returned ≡ none
      → receive_from c ≡ some c'
      → Delivers c
      → (c'.phase ≡ c.phase) × ((c'.closed ≡ b) × Delivers c')
  delivered_once b c c' closed empty e (r, executed, inl (full, _)) =
      subst (λ x. (x.phase ≡ c.phase) × ((x.closed ≡ b) × Delivers x))
        (some_inj (sym (receive_takes b c r closed full) ∙ e))
        (refl, (closed, (r, executed, inr (refl, refl))))
  delivered_once b c c' closed empty e (r, executed, inr (_, returned)) = absurd (cc)

  pub received_keeps :
      (p : Phase) (c c' : Call)
      → IsWaiting p
      → c.returned ≡ none
      → receive_from c ≡ some c'
      → InPhase p c
      → (c'.phase ≡ c.phase) × InPhase p c'
  received_keeps absent c c' waiting empty e _ = elim waiting [ ]
  received_keeps registered c c' waiting empty e _ = elim waiting [ ]
  received_keeps refused c c' waiting empty e _ = elim waiting [ ]
  received_keeps running c c' waiting empty e (buffer, closed, _) =
      absurd (none_ne_some (sym (receive_blocks c closed buffer) ∙ e))
  received_keeps sent c c' waiting empty e (closed, d) =
      let (phase, is) = delivered_once false c c' closed empty e d in (phase, is)
  received_keeps over c c' waiting empty e (closed, d) =
      let (phase, is) = delivered_once true c c' closed empty e d in (phase, is)

  pub set_keeps :
      (n : ℕ) (s : PoolState S) (c : Call)
      → InPhase c.phase c
      → IsConsistent s
      → (j : ℕ) → InPhase (update s.calls n c j).phase (update s.calls n c j)
  set_keeps n s c new h = update_keeps (λ x. InPhase x.phase x) s.calls n c new h
