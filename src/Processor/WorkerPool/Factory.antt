-- ===== src/Processor/WorkerPool/Factory.antt =====
-- internal/transaction_processor/components/factory.go, with the constructor and the three small
-- methods of service/worker_pool_service.go: which processing service the processor gets. The pool of
-- the package ants is a parameter.
use innoscripta_banking_ledg.Base.{ℕ, ℤ, ◌≡◌, refl, Option, some}
use mathlib.Core.Option as Option
use innoscripta_banking_ledg.Domain.Shared.{TransactionRequest}
use innoscripta_banking_ledg.Domain.Error.{external}
use innoscripta_banking_ledg.Domain.Result.{Result, ok, err, Exec}
use innoscripta_banking_ledg.Platform.Reply.{Reply, done, fault}
use innoscripta_banking_ledg.Config.Validation.{Config}
use innoscripta_banking_ledg.Processor.WorkerPool.{PoolState, process_alone}
use innoscripta_banking_ledg.Processor.WorkerPool.Registry.{seen, process_alone-base}

-- `ants.NewPool`, `Release`, `Running` and `Cap`, on the state behind the pool.
pub record AntsPool (K : Type 0) : Type 0 where
  pub new_pool : ℤ → K → Reply (Unit {0}) × K
  pub release : K → K
  pub running : K → ℕ
  pub cap : K → ℕ

-- The service that requests are handed to: the pool, or the base service alone.
pub data ProcessingService : Type 0 where
  base_service worker_pool_service : ProcessingService

module _ {K : Type 0} (ants : AntsPool K) where
  abbrev pool_created : Reply (Unit {0}) → Result ProcessingService
  pool_created (done _) = ok worker_pool_service
  pool_created fault = err external

  -- `NewWorkerPoolProcessingService`
  unfoldable pub new_worker_pool_processing_service : ℤ → Exec K ProcessingService
  new_worker_pool_processing_service size k =
      let (r, k') = ants.new_pool size k in (pool_created r, k')

  unfoldable pub shutdown : K → K
  shutdown k = ants.release k

  unfoldable pub running : K → ℕ
  running k = ants.running k

  unfoldable pub capacity : K → ℕ
  capacity k = ants.cap k

  abbrev or_base : Result ProcessingService → ProcessingService
  or_base (ok service) = service
  or_base (err _) = base_service

  -- `CreateProcessingService`
  unfoldable pub create_processing_service : Config → K → ProcessingService × K
  unfolding new_worker_pool_processing_service
  create_processing_service cfg k =
      let (r, k') = new_worker_pool_processing_service cfg.worker_pool.size k in (or_base r, k')

module _ {S : Type 0} (base : TransactionRequest → ℕ → Exec S (Unit {0})) where
  abbrev pub answered : ℕ → PoolState S → S × Option (Result (Unit {0}))
  answered n s = seen n s

  -- A call of the service, with nothing else going on: what lies behind it and what it returns;
  -- `none` is a call that panics or blocks for ever.
  unfoldable pub call_service :
      ProcessingService
      → ℕ
      → TransactionRequest
      → ℕ
      → PoolState S
      → Option (S × Option (Result (Unit {0})))
  call_service base_service n request now s =
      let (r, world) = base request now s.world in some (world, some r)
  call_service worker_pool_service n request now s =
      Option.map (answered n) (process_alone base n request now s)

  -- Whichever service the factory comes back with, whether the pool could be made or not: a call of it
  -- with nothing else going on, as the consumer makes them one after the other, comes to its end,
  -- returns what the base service returns and leaves what that leaves.
  pub call_service-base :
      {K : Type 0} (ants : AntsPool K) (cfg : Config) (k : K) (n : ℕ) (request : TransactionRequest)
      (now : ℕ) (s : PoolState S)
      → let (service, _) = create_processing_service ants cfg k in
        let (r, world) = base request now s.world in
        call_service service n request now s ≡ some (world, some r)
  unfolding call_service
  call_service-base ants cfg k n request now s = either (create_processing_service ants cfg k).0
    where
      either :
          (service : ProcessingService)
          → let (r, world) = base request now s.world in
            call_service service n request now s ≡ some (world, some r)
      either base_service = refl
      either worker_pool_service = (process_alone-base base n request now s).0
