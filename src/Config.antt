-- ===== src/Config.antt =====
-- internal/config/config.go: the settings and their validation. A `time.Duration` is a number of
-- nanoseconds.
pub mod Server
pub mod Kafka
pub mod Stores
pub mod Validation
pub mod Load
use innoscripta_banking_ledg.Base.{
  ℕ, ℤ, pos, String, Bool, List, [], ◌∷◌, ◌++◌, leb_ℤ, str_eq, if◌then◌else◌,
}

-- `if bad { validationErrors = append(validationErrors, message) }`
abbrev pub complaint : Bool → String → List String
complaint bad message = if bad then message ∷ [] else []

abbrev pub not_positive : ℤ → Bool
not_positive n = leb_ℤ n (pos 0)

abbrev pub empty : String → Bool
empty s = str_eq s ""
