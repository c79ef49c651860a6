-- ===== src/Processor/WorkerPool/Calls.antt =====
-- No call of the pool panics or blocks for ever, and each returns the result of its own request.
use innoscripta_banking_ledg.Base.{
  ℕ, ◌≡◌, ◌≢◌, ◌⊎◌, inl, inr, refl, sym, ◌∙◌, ap, subst, true, Option, none, some,
}
use innoscripta_banking_ledg.Domain.Shared.{TransactionRequest}
use innoscripta_banking_ledg.Domain.Error.{Error}
use innoscripta_banking_ledg.Domain.Result.{Result, err, Exec}
use innoscripta_banking_ledg.Processor.WorkerPool.{
  Phase, absent, registered, running, sent, over, refused, Call, receive_from, update, PoolState,
  new_call, set_call, register, submitted, submission_failed, receive, clean, work, Step, enter,
  accept, refuse, execute, finish, answer, elsewhere, Run, start, next,
}
use innoscripta_banking_ledg.Processor.WorkerPool.Phases.{
  some_inj, none_ne_some, Executed, InPhase, Delivers, IsConsistent, in_phase, work_runs,
  clean_runs, submission_failed_runs, taken, receive_takes, received_keeps, set_keeps,
}

module _ {S : Type 0} (base : TransactionRequest → ℕ → Exec S (Unit {0})) where
  set_call_inv :
      (n : ℕ) (s s' : PoolState S) (o : Option Call)
      → set_call n s o ≡ some s'
      → (c : Call) × (o ≡ some c) × (record s { calls = update s.calls n c } ≡ s')
  set_call_inv n s s' none e = absurd (none_ne_some e)
  set_call_inv n s s' (some c) e = (c, refl, some_inj e)

  own_result :
      (p : Phase) (c : Call) (r : Result (Unit {0}))
      → InPhase base p c
      → c.returned ≡ some r
      → (p ≡ refused) ⊎ Executed base c.request r
  own_result absent c r h e = absurd (none_ne_some (sym h ∙ e))
  own_result registered c r (_, _, h) e = absurd (none_ne_some (sym h ∙ e))
  own_result running c r (_, _, h) e = absurd (none_ne_some (sym h ∙ e))
  own_result sent c r (_, (r', executed, inl (_, h))) e = absurd (none_ne_some (sym h ∙ e))
  own_result sent c r (_, (r', executed, inr (_, h))) e =
      inr (subst (Executed base c.request) (some_inj (sym h ∙ e)) executed)
  own_result over c r (_, (r', executed, inl (_, h))) e = absurd (none_ne_some (sym h ∙ e))
  own_result over c r (_, (r', executed, inr (_, h))) e =
      inr (subst (Executed base c.request) (some_inj (sym h ∙ e)) executed)
  own_result refused c r h e = inl refl

  wakes :
      (c : Call) → Delivers base c → c.returned ≡ none → (c' : Call) × (receive_from c ≡ some c')
  wakes c (r, _, inl (full, _)) empty = (taken base r c, receive_takes base c.closed c r refl full)
  wakes c (r, _, inr (_, h)) empty = absurd (none_ne_some (sym empty ∙ h))

  record IsServed (s : PoolState S) (n : ℕ) : Type 0 where
    pub refuses :
        (s.calls n).phase ≡ registered
        → (e : Error) → (s' : PoolState S) × (submission_failed n e s ≡ some s')
    pub runs :
        (s.calls n).phase ≡ running → (now : ℕ) → (s' : PoolState S) × (work base n now s ≡ some s')
    pub cleans : (s.calls n).phase ≡ sent → (s' : PoolState S) × (clean n s ≡ some s')
    pub answers :
        (s.calls n).phase ≡ over
        → (s.calls n).returned ≡ none
        → (s' : PoolState S) × (receive n s ≡ some s')
    pub own :
        (r : Result (Unit {0}))
        → (s.calls n).returned ≡ some r
        → ((s.calls n).phase ≡ refused) ⊎ Executed base (s.calls n).request r

  -- What can happen next to a call in a phase, given what it has returned.
  abbrev pub Prospect : PoolState S → ℕ → Phase → Option (Result (Unit {0})) → Type 0
  Prospect s n registered o = (e : Error) → (s' : PoolState S) × (submission_failed n e s ≡ some s')
  Prospect s n running o = (now : ℕ) → (s' : PoolState S) × (work base n now s ≡ some s')
  Prospect s n sent o = (s' : PoolState S) × (clean n s ≡ some s')
  Prospect s n over none = (s' : PoolState S) × (receive n s ≡ some s')
  Prospect s n _ _ = Unit

  -- What a call has returned, unless the pool has refused its task.
  abbrev pub Own : TransactionRequest → Phase → Option (Result (Unit {0})) → Type 0
  Own request refused o = Unit
  Own request _ none = Unit
  Own request _ (some r) = Executed base request r

  served-Prospect :
      (s : PoolState S) (n : ℕ) (p : Phase) (o : Option (Result (Unit {0})))
      → (s.calls n).phase ≡ p
      → (s.calls n).returned ≡ o
      → IsServed s n
      → Prospect s n p o
  served-Prospect s n absent o p e h = tt
  served-Prospect s n registered o p e h = h.refuses p
  served-Prospect s n running o p e h = h.runs p
  served-Prospect s n sent o p e h = h.cleans p
  served-Prospect s n over none p e h = h.answers p e
  served-Prospect s n over (some r) p e h = tt
  served-Prospect s n refused o p e h = tt

  unrefused :
      (p : Phase) (request : TransactionRequest) (r : Result (Unit {0}))
      → (p ≡ refused) ⊎ Executed base request r
      → p ≢ refused
      → Executed base request r
  unrefused p request r (inl e) ne = absurd (ne e)
  unrefused p request r (inr h) ne = h

  Executed-Own :
      (p : Phase) (request : TransactionRequest) (r : Result (Unit {0}))
      → (p ≡ refused) ⊎ Executed base request r
      → Own request p (some r)
  Executed-Own absent request r h = unrefused absent request r h (λ e. cc)
  Executed-Own registered request r h = unrefused registered request r h (λ e. cc)
  Executed-Own running request r h = unrefused running request r h (λ e. cc)
  Executed-Own sent request r h = unrefused sent request r h (λ e. cc)
  Executed-Own over request r h = unrefused over request r h (λ e. cc)
  Executed-Own refused request r h = tt

  served-Own :
      (s : PoolState S) (n : ℕ) (p : Phase) (o : Option (Result (Unit {0})))
      → (s.calls n).phase ≡ p
      → (s.calls n).returned ≡ o
      → IsServed s n
      → Own (s.calls n).request p o
  served-Own s n refused o p e h = tt
  served-Own s n absent none p e h = tt
  served-Own s n registered none p e h = tt
  served-Own s n running none p e h = tt
  served-Own s n sent none p e h = tt
  served-Own s n over none p e h = tt
  served-Own s n q (some r) p e h =
      Executed-Own q (s.calls n).request r
        (subst (λ x. (x ≡ refused) ⊎ Executed base (s.calls n).request r) p (h.own r e))

  module _ (Admits : TransactionRequest → Type 0) (Other : S → S → Type 0) where
    Step-IsConsistent :
        {s s' : PoolState S}
        → Step base Admits Other s s'
        → IsConsistent base s
        → IsConsistent base s'
    unfolding register submitted receive
    Step-IsConsistent (enter n request s p _) h =
        set_keeps base n s (new_call request) (refl, refl, refl) h
    Step-IsConsistent (accept n s p) h =
        set_keeps base n s (record (s.calls n) { phase = running })
          (in_phase base registered (s.calls n) p (h n)) h
    Step-IsConsistent (refuse n e s s' p done) h =
        let (empty, _, _) = in_phase base registered (s.calls n) p (h n) in
        subst (IsConsistent base) (some_inj (sym (submission_failed_runs base n e s p h) ∙ done)) (
          set_keeps base n s
            (record (s.calls n) { phase = refused; returned = some (err e); closed = true })
            (refl, empty, (e, refl)) h)
    Step-IsConsistent (execute n now s s' p done) h =
        let (_, open', none') = in_phase base running (s.calls n) p (h n) in
        let r = (base (s.calls n).request now s.world).0 in
        subst (IsConsistent base) (some_inj (sym (work_runs base n now s p h) ∙ done)) (
          set_keeps base n s (record (s.calls n) { phase = sent; buffer = some r })
            (open', (r, (s.world, now, refl), inl (refl, none'))) h)
    Step-IsConsistent (finish n s s' p done) h =
        let (_, d) = in_phase base sent (s.calls n) p (h n) in
        subst (IsConsistent base) (some_inj (sym (clean_runs base n s p h) ∙ done))
          (set_keeps base n s (record (s.calls n) { phase = over; closed = true }) (refl, d) h)
    Step-IsConsistent (elsewhere s world _) h = h
    Step-IsConsistent (answer n s s' waiting empty done) h =
        let (c, received, same) = set_call_inv n s s' (receive_from (s.calls n)) done in
        let (phase, is) =
          received_keeps base (s.calls n).phase (s.calls n) c waiting empty received (h n) in
        subst (IsConsistent base) same
          (set_keeps base n s c (subst (λ q. InPhase base q c) (sym phase) is) h)

    Run-IsConsistent :
        {s s' : PoolState S}
        → Run base Admits Other s s'
        → IsConsistent base s
        → IsConsistent base s'
    Run-IsConsistent (start s) h = h
    Run-IsConsistent (next run step) h = Step-IsConsistent step (Run-IsConsistent run h)

    Run-IsServed :
        {s s' : PoolState S}
        → Run base Admits Other s s'
        → ((n : ℕ) → ((s.calls n).phase ≡ absent) × ((s.calls n).returned ≡ none))
        → (n : ℕ) → IsServed s' n
    unfolding receive
    Run-IsServed {s} {s'} run empty n =
        let h =
          Run-IsConsistent run
            (λ m. subst (λ q. InPhase base q (s.calls m)) (sym (empty m).0) (empty m).1) in
        record {
          refuses = λ p e. (_, submission_failed_runs base n e s' p h);
          runs = λ p now. (_, work_runs base n now s' p h);
          cleans = λ p. (_, clean_runs base n s' p h);
          answers = λ p none'.
              let (c, e) = wakes (s'.calls n) (in_phase base over (s'.calls n) p (h n)).1 none' in
              (record s' { calls = update s'.calls n c }, ap (set_call n s') e);
          own = λ r e. own_result (s'.calls n).phase (s'.calls n) r (h n) e;
        }

    -- However the calls and their tasks take turns, starting from a pool without calls: the end of a
    -- refused call never panics; a task that runs can send its result, and one that has sent it can
    -- remove and close the channel, so that no goroutine panics or blocks for ever; a call whose task
    -- is over finds its result in the channel; and what a call returns is the result with which the
    -- base service has come back for its own request, if the pool has taken base its task.
    pub Run-Serves :
        {s s' : PoolState S}
        → Run base Admits Other s s'
        → ((n : ℕ) → ((s.calls n).phase ≡ absent) × ((s.calls n).returned ≡ none))
        → (n : ℕ)
        → Prospect s' n (s'.calls n).phase (s'.calls n).returned
          × Own (s'.calls n).request (s'.calls n).phase (s'.calls n).returned
    Run-Serves {s} {s'} run empty n =
        let served = Run-IsServed run empty n in
        (served-Prospect s' n _ _ refl refl served, served-Own s' n _ _ refl refl served)
