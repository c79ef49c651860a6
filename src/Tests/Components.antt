-- ===== src/Tests/Components.antt =====
-- The components one by one.
use innoscripta_banking_ledg.Base.{String, pos, refl, [], ◌∷◌, ◌≡◌, ◌≢◌, ◌↔◌, ◌≤ℤ◌, ◌+ℤ◌, arith}
use Prim.Native.String.{len}
use innoscripta_banking_ledg.Domain.Shared.{failed}
use innoscripta_banking_ledg.Domain.Result.{ok}
use innoscripta_banking_ledg.Domain.Account.{Account, deposited, new_account, deposit, withdraw}
use innoscripta_banking_ledg.Domain.Account.Movements.{withdraw-deposit, new_account_accepts}
use innoscripta_banking_ledg.Data.AccountRepository as AccountRepository
use innoscripta_banking_ledg.Data.AccountRepository.Locking.{Updated, update_writes}
use innoscripta_banking_ledg.Data.LedgerRepository as LedgerRepository
use innoscripta_banking_ledg.Data.LedgerRepository.Uniqueness.{
  OnePerTransaction, ledger_writes_unique,
}
use innoscripta_banking_ledg.Processor.AccountManager.{lock_and_update_account}
use innoscripta_banking_ledg.Processor.AccountManager.Outcome.{
  Outcome, lock_and_update_account-Outcome,
}
use innoscripta_banking_ledg.Tests.InMemory.{
  store_querier, store_querier-IsQuerier, store_collection, store_collection-IsCollection,
}
use innoscripta_banking_ledg.Tests.Samples.{
  alice, withdrawal_of_30, queued_entry, fresh_store, full_documents,
}

lock_and_update_account-Outcome_example :
    let (r, s) = lock_and_update_account store_querier withdrawal_of_30 12 fresh_store in
    Outcome withdrawal_of_30 12 (alice ∷ []) s.rows r × (s.queue ≡ [])
unfolding store_querier-IsQuerier
lock_and_update_account-Outcome_example =
    lock_and_update_account-Outcome store_querier store_querier-IsQuerier withdrawal_of_30 12 refl
      (omega arith) fresh_store refl (omega arith)

ledger_writes_unique_example :
    OnePerTransaction (LedgerRepository.create store_collection queued_entry full_documents).1.docs
    × OnePerTransaction
        (LedgerRepository.update_status store_collection 55 failed "UNKNOWN_ERROR" 14
          full_documents).1.docs
unfolding store_collection-IsCollection
ledger_writes_unique_example =
    ledger_writes_unique store_collection store_collection-IsCollection queued_entry 55 failed
      "UNKNOWN_ERROR" 14 full_documents refl

update_writes_example :
    let (r, s) = AccountRepository.update store_querier (deposited (pos 5) 12 alice) fresh_store in
    Updated (deposited (pos 5) 12 alice) (alice ∷ []) s.rows r × (s.queue ≡ [])
unfolding store_querier-IsQuerier
update_writes_example =
    update_writes store_querier store_querier-IsQuerier (deposited (pos 5) 12 alice) fresh_store

withdraw-deposit_example :
    (a : Account) × (withdraw (pos 5) 13 (deposited (pos 5) 12 alice) ≡ ok a)
    × (a.balance ≡ pos 100)
unfolding deposit ◌+ℤ◌
withdraw-deposit_example =
    withdraw-deposit (pos 5) 12 13 alice (deposited (pos 5) 12 alice) (omega arith) (omega arith)
      (omega arith) refl

new_account_accepts_example :
    ((◌≢◌ {A = String} "Bob" "") × (len "GBP" ≡ 3) × (pos 0 ≤ℤ pos 20)) ↔ (
      (a : Account) × (new_account 8 12 "Bob" "B-2" (pos 20) "GBP" ≡ ok a)
      × (a.balance ≡ pos 20)
      × (a.version ≡ pos 1))
new_account_accepts_example = new_account_accepts 8 12 "Bob" "B-2" (pos 20) "GBP"
