-- ===== src/Tests/Loading.antt =====
-- The configuration out of its layers.
use innoscripta_banking_ledg.Base.{
  ℤ, pos, String, ◌≡◌, ◌⊎◌, refl, Option, some, none, str_eq, if◌then◌else◌,
}
use innoscripta_banking_ledg.Domain.Error.{external, wrapped}
use innoscripta_banking_ledg.Domain.Result.{ok, err}
use innoscripta_banking_ledg.Config.Load.{Value, text, number, duration, Viper, load}
use innoscripta_banking_ledg.Config.Load.Settings.{layered, IsViper, layered_config}
use innoscripta_banking_ledg.Config.Load.Layers.{IsConfig, load_layers}
use innoscripta_banking_ledg.Config.Load.Defaults.{default_config, load_defaults}

abbrev text_of : Option Value → String
text_of (some (text s)) = s
text_of _ = ""

abbrev int_of : Option Value → ℤ
int_of (some (number n)) = n
int_of _ = pos 0

abbrev duration_of : Option Value → ℤ
duration_of (some (duration n)) = n
duration_of _ = pos 0

-- The layers as a function of the name.
abbrev pub layers : (String → Option Value) → Viper (String → Option Value)
layers override = record {
  new = λ key. none;
  set_default = λ key value v other. if str_eq key other then some value else v other;
  read_in_config = λ name type paths v key. layered (override key) (v key);
  automatic_env = λ v. v;
  get_string = λ v key. text_of (v key);
  get_int = λ v key. int_of (v key);
  get_duration = λ v key. duration_of (v key);
}

unfoldable pub layers-IsViper :
    (override : String → Option Value) → IsViper (layers override) override
layers-IsViper override = record {
  default_of = λ v. v;
  string_of = text_of;
  int_of = int_of;
  duration_of = duration_of;
  string_of_text = λ s. refl;
  int_of_number = λ n. refl;
  duration_of_duration = λ n. refl;
  new_empty = λ key. refl;
  default_set = λ key value v other. refl;
  gets_string = λ name type paths v key. refl;
  gets_int = λ name type paths v key. refl;
  gets_duration = λ name type paths v key. refl;
}

-- The environment has another port.
abbrev other_port : String → Option Value
other_port key = if str_eq key "SERVER_PORT" then some (number (pos 9090)) else none

load_layers_example :
    let config = layered_config (layers other_port) other_port (layers-IsViper other_port) in
    ((load (layers other_port) "app" "env" ≡ ok config) × IsConfig config)
    ⊎ ((load (layers other_port) "app" "env" ≡ err (wrapped external)) × ¬ (IsConfig config))
load_layers_example =
    load_layers (layers other_port) other_port (layers-IsViper other_port) "app" "env"

loaded_defaults : load (layers (λ key. none)) "app" "env" ≡ ok default_config
loaded_defaults =
    load_defaults (layers (λ key. none)) (λ key. none) (layers-IsViper (λ key. none)) (λ key. refl)
      "app" "env"
