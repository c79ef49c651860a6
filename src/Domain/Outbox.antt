-- ===== src/Domain/Outbox.antt =====
-- internal/domain/outbox/message.go: the message that carries a ledger entry through the outbox.
-- `B` is the type of `json.RawMessage`, as the JSONB column keeps it.
pub mod Content
use innoscripta_banking_ledg.Base.{ℕ, ℤ, pos, ◌+ℤ◌, wrap64, ◌≡◌, Option, none, some}
use innoscripta_banking_ledg.Domain.Shared.{OutboxStatus, pending, processed, failed_to_publish}
use innoscripta_banking_ledg.Domain.Error.{external}
use innoscripta_banking_ledg.Domain.Result.{Result, ok, err}
use innoscripta_banking_ledg.Domain.Ledger.{Entry}

-- encoding/json on ledger entries; `none` is an error.
pub record Json (B : Type 0) : Type 0 where
  pub marshal : Entry → Option B
  pub unmarshal : B → Option Entry

-- What was marshalled can be read back. This holds of entries whose texts are valid UTF-8 and whose
-- times have no more than nanoseconds.
pub record IsJson {B : Type 0} (json : Json B) : Type 0 where
  pub round_trip : (e : Entry) (b : B) → json.marshal e ≡ some b → json.unmarshal b ≡ some e

pub record Message (B : Type 0) : Type 0 where
  pub id : ℕ
  pub transaction_id : ℕ
  pub account_id : ℕ
  pub payload : B
  pub status : OutboxStatus
  pub attempts : ℤ
  pub created_at : ℕ
  pub last_attempt_at : Option ℕ

module _ {B : Type 0} where
  -- The literal of `NewMessage`; `ID` has Go's zero value.
  abbrev pub message_of : Entry → ℕ → B → Message B
  message_of entry now payload = record {
    id = 0;
    transaction_id = entry.transaction_id;
    account_id = entry.account_id;
    payload = payload;
    status = pending;
    attempts = pos 0;
    created_at = now;
    last_attempt_at = none;
  }

  unfoldable pub new_message : Json B → Entry → ℕ → Result (Message B)
  new_message json entry now = elim (json.marshal entry) [
    | none ↦ err external
    | some payload ↦ ok (message_of entry now payload)
  ]

  unfoldable pub increment_attempts : ℕ → Message B → Message B
  increment_attempts now m = record m {
    attempts = wrap64 (m.attempts +ℤ pos 1);
    last_attempt_at = some now;
  }

  unfoldable pub mark_as_processed : ℕ → Message B → Message B
  mark_as_processed now m = record m { status = processed; last_attempt_at = some now }

  unfoldable pub mark_as_failed : ℕ → Message B → Message B
  mark_as_failed now m = record m { status = failed_to_publish; last_attempt_at = some now }

  unfoldable pub get_ledger_entry : Json B → Message B → Result Entry
  get_ledger_entry json m = elim (json.unmarshal m.payload) [
    | none ↦ err external
    | some entry ↦ ok entry
  ]
