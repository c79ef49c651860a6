-- ===== src/Gateway/TransactionService.antt =====
-- internal/api_gateway/service/transaction_service.go.
pub mod Acceptance
pub mod Pages
pub mod Listing
use innoscripta_banking_ledg.Base.{
  ℕ, ℤ, pos, ◌-ℤ◌, ◌*ℤ◌, wrap64, String, Bool, true, false, Option, none, some, List, str_eq,
  if◌then◌else◌,
}
use innoscripta_banking_ledg.Domain.Shared.{TransactionRequest}
use innoscripta_banking_ledg.Domain.Error.{Error, external, wrapped, entry_not_found}
use innoscripta_banking_ledg.Domain.Result.{Result, ok, err, Exec}
use innoscripta_banking_ledg.Domain.Ledger.{Entry}
use innoscripta_banking_ledg.Platform.Reply.{Reply, done, fault}
use innoscripta_banking_ledg.Platform.Collection.{Collection}
use innoscripta_banking_ledg.Data.LedgerRepository.{
  get_by_idempotency_key, get_by_transaction_id, get_by_account_id, count_by_account_id,
}

-- `MessagePublisher`, on a Kafka topic: a key and a value, as JSON.
pub record MessagePublisher (T : Type 0) : Type 0 where
  pub publish : ℕ → TransactionRequest → T → Reply (Unit {0}) × T

-- The state behind the ledger and behind the topic.
pub record Channels (M T : Type 0) : Type 0 where
  pub mongo : M
  pub topic : T

-- `errors.As` with a target of type `ErrEntryNotFound`
unfoldable pub as_entry_not_found : Error → Bool
as_entry_not_found (wrapped e) = as_entry_not_found e
as_entry_not_found (entry_not_found _) = true
as_entry_not_found _ = false

unfoldable pub entry_or_none : Result Entry → Result (Option Entry)
unfolding as_entry_not_found
entry_or_none (ok e) = ok (some e)
entry_or_none (err e) = if as_entry_not_found e then ok none else err e

-- `(page - 1) * perPage`
unfoldable pub page_offset : ℤ → ℤ → ℤ
page_offset page per_page = wrap64 (wrap64 (page -ℤ pos 1) *ℤ per_page)

module _ {M T : Type 0} (c : Collection M) (producer : MessagePublisher T) where
  -- The producer wraps an error of the writer.
  abbrev pub accepted : ℕ → Reply (Unit {0}) → Result (ℕ × Option Entry)
  accepted id (done _) = ok (id, none)
  accepted id fault = err (wrapped external)

  publish_request : TransactionRequest → Exec (Channels M T) (ℕ × Option Entry)
  publish_request request w =
      let (r, topic) = producer.publish request.transaction_id request w.topic in
      (accepted request.transaction_id r, record w { topic = topic })

  after_key_lookup :
      TransactionRequest → Result (Option Entry) → Exec (Channels M T) (ℕ × Option Entry)
  unfolding publish_request
  after_key_lookup request (err e) w = (err e, w)
  after_key_lookup request (ok (some existing)) w = (ok (existing.transaction_id, some existing), w)
  after_key_lookup request (ok none) w = publish_request request w

  unfoldable pub create_transaction : TransactionRequest → Exec (Channels M T) (ℕ × Option Entry)
  unfolding publish_request after_key_lookup
  create_transaction request w =
      if str_eq request.idempotency_key ""
      then publish_request request w
      else (let (existing, m) = get_by_idempotency_key c request.idempotency_key w.mongo in
          after_key_lookup request existing (record w { mongo = m }))

module _ {M : Type 0} (c : Collection M) where
  unfoldable pub get_transaction_by_id : ℕ → Exec M (Option Entry)
  get_transaction_by_id id m = let (r, m') = get_by_transaction_id c id m in (entry_or_none r, m')

  abbrev counted_page : List Entry → Result ℤ → Result (List Entry × ℤ)
  counted_page entries (ok total) = ok (entries, total)
  counted_page entries (err e) = err e

  count_page : ℕ → Result (List Entry) → Exec M (List Entry × ℤ)
  count_page account_id (err e) m = (err e, m)
  count_page account_id (ok entries) m =
      let (r, m') = count_by_account_id c account_id m in (counted_page entries r, m')

  unfoldable pub get_transactions_by_account_id : ℕ → ℤ → ℤ → Exec M (List Entry × ℤ)
  unfolding count_page page_offset
  get_transactions_by_account_id account_id page per_page m =
      let (r, m') = get_by_account_id c account_id per_page (page_offset page per_page) m in
      count_page account_id r m'
