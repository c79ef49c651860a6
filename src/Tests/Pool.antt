-- ===== src/Tests/Pool.antt =====
-- A call through the worker pool.
use innoscripta_banking_ledg.Base.{ℕ, zero, suc, ◌≡◌, refl, some, none, false}
use innoscripta_banking_ledg.Domain.Shared.{TransactionRequest}
use innoscripta_banking_ledg.Domain.Result.{ok, Exec}
use innoscripta_banking_ledg.Processor.WorkerPool.{
  Call, absent, PoolState, register, submitted, Run, start, next, enter, accept,
}
use innoscripta_banking_ledg.Processor.WorkerPool.Calls.{Prospect, Own, Run-Serves}
use innoscripta_banking_ledg.Platform.Reply.{fault}
use innoscripta_banking_ledg.Processor.WorkerPool.Factory.{
  AntsPool, create_processing_service, call_service, call_service-base,
}
use innoscripta_banking_ledg.Tests.Services.{local_config}
use innoscripta_banking_ledg.Tests.Samples.{withdrawal_of_30}

-- The calls that have not come in.
abbrev no_call : Call
no_call = record {
  request = withdrawal_of_30;
  phase = absent;
  buffer = none;
  closed = false;
  returned = none;
}

abbrev idle_pool : {S : Type 0} → S → PoolState S
idle_pool w = record { world = w; calls = λ n. no_call; results = λ id. none }

-- A base service that counts what it handles.
abbrev counting : TransactionRequest → ℕ → Exec ℕ (Unit {0})
counting request now n = (ok tt, suc n)

abbrev Anything : TransactionRequest → Type 0
Anything request = Unit

abbrev Nothing : ℕ → ℕ → Type 0
Nothing n m = Unit

abbrev entered : PoolState ℕ
entered = register 3 withdrawal_of_30 (idle_pool zero)

abbrev taken_pool : PoolState ℕ
taken_pool = submitted 3 entered

taken_run : Run counting Anything Nothing (idle_pool zero) taken_pool
unfolding register
taken_run =
    next (next (start (idle_pool zero)) (enter 3 withdrawal_of_30 (idle_pool zero) refl tt))
      (accept 3 entered refl)

Run-Serves_example :
    Prospect counting taken_pool 3 (taken_pool.calls 3).phase (taken_pool.calls 3).returned
    × Own counting
        (taken_pool.calls 3).request
        (taken_pool.calls 3).phase
        (taken_pool.calls 3).returned
Run-Serves_example = Run-Serves counting Anything Nothing taken_run (λ n. (refl, refl)) 3

-- A pool that cannot be made.
abbrev no_pool : AntsPool (Unit {0})
no_pool = record {
  new_pool = λ size k. (fault, k);
  release = λ k. k;
  running = λ k. 0;
  cap = λ k. 0;
}

call_service-base_example :
    call_service counting
      (create_processing_service no_pool local_config tt).0
      3
      withdrawal_of_30
      12
      (idle_pool zero)
    ≡ some (1, some (ok tt))
call_service-base_example =
    call_service-base counting no_pool local_config tt 3 withdrawal_of_30 12 (idle_pool zero)
