-- ===== src/Processor/WorkerPool.antt =====
-- internal/transaction_processor/service/worker_pool_service.go and components/factory.go: calls of
-- `ProcessTransaction` that hand their work to a pool of goroutines and wait for it on a channel of
-- their own. The pool of the package ants decides when a task runs and whether it takes one. What
-- stands between two waits of a goroutine is one operation here; the mutex makes it one.
pub mod Phases
pub mod Calls
pub mod Registry
pub mod Factory
use innoscripta_banking_ledg.Base.{
  ℕ, ◌≡◌, Bool, true, false, Option, none, some, ◌==◌, if◌then◌else◌,
}
use innoscripta_banking_ledg.Domain.Shared.{TransactionRequest}
use innoscripta_banking_ledg.Domain.Error.{Error}
use innoscripta_banking_ledg.Domain.Result.{Result, ok, err, Exec}

-- How far a call and its task are. `sent` is a task that has sent its result and is about to remove
-- the channel; `refused` is a call whose task the pool has not taken.
pub data Phase : Type 0 where
  absent registered running sent over refused : Phase

-- A call with its channel, which has room for one result, and what the call has returned.
pub record Call : Type 0 where
  pub request : TransactionRequest
  pub phase : Phase
  pub buffer : Option (Result (Unit {0}))
  pub closed : Bool
  pub returned : Option (Result (Unit {0}))

-- A send: `none` is a goroutine that blocks or panics.
abbrev send_when : Bool → Option (Result (Unit {0})) → Result (Unit {0}) → Call → Option Call
send_when false none r c = some (record c { buffer = some r })
send_when false (some _) r c = none
send_when true _ r c = none

abbrev pub send : Result (Unit {0}) → Call → Option Call
send r c = send_when c.closed c.buffer r c

-- `close`: `none` is the panic of closing a channel twice.
abbrev close_when : Bool → Call → Option Call
close_when false c = some (record c { closed = true })
close_when true c = none

abbrev pub close_channel : Call → Option Call
close_channel c = close_when c.closed c

-- A receive that the call returns: `none` blocks; a closed and empty channel gives Go's zero value,
-- no error.
abbrev receive_when : Bool → Option (Result (Unit {0})) → Call → Option Call
receive_when _ (some r) c = some (record c { buffer = none; returned = some r })
receive_when true none c = some (record c { returned = some (ok tt) })
receive_when false none c = none

abbrev pub receive_from : Call → Option Call
receive_from c = receive_when c.closed c.buffer c

abbrev pub update {ℓ} : {A : Type ℓ} → (ℕ → A) → ℕ → A → ℕ → A
update f i a j = if i == j then a else f j

-- What lies behind the base service, the calls by number, and the map `results` from transaction IDs
-- to the call whose channel it holds.
pub record PoolState (S : Type 0) : Type 0 where
  pub world : S
  pub calls : ℕ → Call
  pub results : ℕ → Option ℕ

abbrev pub new_call : TransactionRequest → Call
new_call request = record {
  request = request;
  phase = registered;
  buffer = none;
  closed = false;
  returned = none;
}

-- A call whose task the pool has taken waits for the result.
abbrev pub IsWaiting : Phase → Type 0
IsWaiting running = Unit
IsWaiting sent = Unit
IsWaiting over = Unit
IsWaiting _ = ⊥

module _ {S : Type 0} where
  abbrev set_call : ℕ → PoolState S → Option Call → Option (PoolState S)
  set_call n s none = none
  set_call n s (some c) = some (record s { calls = update s.calls n c })

  -- Make the channel and store it.
  unfoldable pub register : ℕ → TransactionRequest → PoolState S → PoolState S
  register n request s = record s {
    calls = update s.calls n (new_call request);
    results = update s.results request.transaction_id (some n);
  }

  -- `delete(s.results, transactionID)` and `close(resultChan)`
  remove_channel : ℕ → Call → PoolState S → Option (PoolState S)
  remove_channel n c s =
      set_call n (record s { results = update s.results c.request.transaction_id none })
        (close_channel c)

  -- `pool.Submit` has taken the task.
  unfoldable pub submitted : ℕ → PoolState S → PoolState S
  submitted n s = record s { calls = update s.calls n (record (s.calls n) { phase = running }) }

  -- `pool.Submit` has come back with an error, which the call returns.
  unfoldable pub submission_failed : ℕ → Error → PoolState S → Option (PoolState S)
  unfolding remove_channel
  submission_failed n e s =
      remove_channel n (record (s.calls n) { phase = refused; returned = some (err e) }) s

  -- `return <-resultChan`
  unfoldable pub receive : ℕ → PoolState S → Option (PoolState S)
  receive n s = set_call n s (receive_from (s.calls n))

  -- The end of a task.
  unfoldable pub clean : ℕ → PoolState S → Option (PoolState S)
  unfolding remove_channel
  clean n s = remove_channel n (record (s.calls n) { phase = over }) s

module _ {S : Type 0} (base : TransactionRequest → ℕ → Exec S (Unit {0})) where
  -- The task: process the transaction with the base service and send the result.
  unfoldable pub work : ℕ → ℕ → PoolState S → Option (PoolState S)
  work n now s =
      let (r, world) = base (s.calls n).request now s.world in
      set_call n (record s { world = world }) (send r (record (s.calls n) { phase = sent }))

  abbrev and_then :
      Option (PoolState S) → (PoolState S → Option (PoolState S)) → Option (PoolState S)
  and_then none k = none
  and_then (some s) k = k s

  -- A call that has the pool for itself, from its start to its return.
  unfoldable pub process_alone : ℕ → TransactionRequest → ℕ → PoolState S → Option (PoolState S)
  unfolding register submitted work clean receive
  process_alone n request now s =
      and_then (work n now (submitted n (register n request s)))
        (λ s'. and_then (clean n s') (receive n))

  -- The calls and their tasks, in any order. A task runs the base service as one step: that its calls of
  -- the databases interleave with those of other tasks bears on the world, not on the channels. `Admits` says which requests come in, `Other` what else
  -- happens to the world.
  module _ (Admits : TransactionRequest → Type 0) (Other : S → S → Type 0) where
    pub data Step : PoolState S → PoolState S → Type 0 where
      enter :
          (n : ℕ) (request : TransactionRequest) (s : PoolState S)
          → (s.calls n).phase ≡ absent
          → Admits request
          → Step s (register n request s)
      accept : (n : ℕ) (s : PoolState S) → (s.calls n).phase ≡ registered → Step s (submitted n s)
      refuse :
          (n : ℕ) (e : Error) (s s' : PoolState S)
          → (s.calls n).phase ≡ registered
          → submission_failed n e s ≡ some s'
          → Step s s'
      execute :
          (n now : ℕ) (s s' : PoolState S)
          → (s.calls n).phase ≡ running
          → work n now s ≡ some s'
          → Step s s'
      finish :
          (n : ℕ) (s s' : PoolState S) → (s.calls n).phase ≡ sent → clean n s ≡ some s' → Step s s'
      answer :
          (n : ℕ) (s s' : PoolState S)
          → IsWaiting (s.calls n).phase
          → (s.calls n).returned ≡ none
          → receive n s ≡ some s'
          → Step s s'
      elsewhere :
          (s : PoolState S) (world : S) → Other s.world world → Step s (record s { world = world })

    -- Zero or more steps.
    pub data Run : PoolState S → PoolState S → Type 0 where
      start : (s : PoolState S) → Run s s
      next : {s s' s'' : PoolState S} → Run s s' → Step s' s'' → Run s s''
