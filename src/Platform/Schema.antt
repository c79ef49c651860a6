-- ===== src/Platform/Schema.antt =====
-- migrations/postgres: the constraints of the two tables that a successful write leaves satisfied, and
-- the limits of the columns. The foreign key and what JSONB refuses stand where a theorem needs an
-- insert to be done, as hypotheses of its answer.
use Prim.Native.String.{len}
use innoscripta_banking_ledg.Base.{
  ℕ, ◌≤◌, pos, leb_ℤ, IsInt32, IsInt64, String, ◌≡◌, true, Bool, ◌&&◌, List, ◌==◌, str_eq, all_of,
  distinct,
}
use innoscripta_banking_ledg.Domain.Account.{Account}
use innoscripta_banking_ledg.Domain.Outbox.{Message}

-- `positive_balance`, `id UUID PRIMARY KEY` and `national_id ... UNIQUE`
abbrev pub accounts_schema : List Account → Bool
accounts_schema rows =
    all_of (λ a. leb_ℤ (pos 0) a.balance) rows
    && distinct (λ a b. a.id == b.id) rows
    && distinct (λ a b. str_eq a.national_id b.national_id) rows

-- `id BIGSERIAL PRIMARY KEY` and `transaction_id UUID NOT NULL UNIQUE`
abbrev pub outbox_schema : {B : Type 0} → List (Message B) → Bool
outbox_schema rows =
    distinct (λ a b. a.id == b.id) rows
    && distinct (λ a b. a.transaction_id == b.transaction_id) rows

-- A text for a column VARCHAR(n); `storable` is what PostgreSQL says of its bytes, of which it refuses
-- zero. It counts characters, and a text has no more of them than bytes.
abbrev FitsVarchar : (String → Bool) → ℕ → String → Type 0
FitsVarchar storable n s = (storable s ≡ true) × (len s ≤ n)

-- The columns of the accounts: VARCHAR(50), VARCHAR(50), VARCHAR(3), BIGINT and INTEGER.
pub record FitsColumns (storable : String → Bool) (a : Account) : Type 0 where
  pub owner_name : FitsVarchar storable 50 a.owner_name
  pub national_id : FitsVarchar storable 50 a.national_id
  pub currency : FitsVarchar storable 3 a.currency
  pub balance : IsInt64 a.balance
  pub version : IsInt32 a.version
