-- ===== src/Platform/World.antt =====
-- The state behind the two databases, which `cmd/transaction_processor/main.go` connects to.
pub record World (P M : Type 0) : Type 0 where
  pub pg : P
  pub mongo : M
