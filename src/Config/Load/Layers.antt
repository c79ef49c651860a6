-- ===== src/Config/Load/Layers.antt =====
-- What `loadConfig` makes of the defaults, the file and the environment.
use mathlib.Core.Path.{fun_ext}
use innoscripta_banking_ledg.Base.{
  String, ◌≡◌, ◌≢◌, subst, ◌↔◌, ◌⊎◌, inl, inr, refl, ◌∙◌, ap, Option, none, some, List, [], ◌∷◌,
  str_eq, if◌then◌else◌,
}
use innoscripta_banking_ledg.Domain.Error.{Error, external, wrapped}
use innoscripta_banking_ledg.Domain.Result.{ok, err}
use innoscripta_banking_ledg.Config.Server.{IsServerConfig, IsOutboxConfig, IsWorkerPoolConfig}
use innoscripta_banking_ledg.Config.Kafka.{IsKafkaConfig}
use innoscripta_banking_ledg.Config.Stores.{IsPostgresConfig, IsMongoDbConfig}
use innoscripta_banking_ledg.Config.Validation.{Config, validate_config, validate_config_accepts}
use innoscripta_banking_ledg.Config.Load.{
  Value, Viper, default_settings, config_of, validated, set_all, set_defaults, load, load_config,
}
use innoscripta_banking_ledg.Config.Load.Settings.{layered, IsViper, layered_config}

-- The default of a name: the last one that is set.
abbrev pub default_under : String → List (String × Value) → Option Value → Option Value
default_under key [] found = found
default_under key ((name, value) ∷ settings) found =
    default_under key settings (if str_eq name key then some value else found)

-- Every setting that is checked is given or positive.
abbrev pub IsConfig : Config → Type 0
IsConfig c =
    IsServerConfig c.server
    × IsKafkaConfig c.kafka
    × IsPostgresConfig c.postgres
    × IsMongoDbConfig c.mongodb
    × IsOutboxConfig c.outbox
    × IsWorkerPoolConfig c.worker_pool

some_ne_none : {A : Type 0} (a : A) → ¬ (some a ≡ none)
some_ne_none a e = cc

module _ {V : Type 0} (viper : Viper V) (override : String → Option Value)
    (laws : IsViper viper override) where
  set_all-default_of :
      (settings : List (String × Value)) (v : V) (key : String)
      → laws.default_of (set_all viper settings v) key
        ≡ default_under key settings (laws.default_of v key)
  set_all-default_of [] v key = refl
  set_all-default_of ((name, value) ∷ settings) v key =
      set_all-default_of settings (viper.set_default name value v) key
      ∙ ap (default_under key settings) (laws.default_set name value v key)

  unfoldable pub setting : String → Option Value
  setting key = layered (override key) (default_under key default_settings none)

  abbrev pub composed_config : Config
  composed_config =
      config_of (λ key. laws.string_of (setting key)) (λ key. laws.int_of (setting key))
        (λ key. laws.duration_of (setting key))

  pub composed_eq : composed_config ≡ layered_config viper override laws
  unfolding config_of setting
  composed_eq = refl

  default_under_set :
      (key : String)
      → laws.default_of (set_defaults viper viper.new) key ≡ default_under key default_settings none
  unfolding set_defaults
  default_under_set key =
      set_all-default_of default_settings viper.new key
      ∙ ap (default_under key default_settings) (laws.new_empty key)

  IsConfig-cases :
      (c : Config)
      → ((validated c (validate_config c) ≡ ok c) × IsConfig c)
        ⊎ ((validated c (validate_config c) ≡ err (wrapped external)) × ¬ (IsConfig c))
  IsConfig-cases c = decided (validate_config c) (validate_config_accepts c)
    where
      decided :
          (o : Option (List String))
          → ((o ≡ none) ↔ IsConfig c)
          → ((validated c o ≡ ok c) × IsConfig c)
            ⊎ ((validated c o ≡ err (wrapped external)) × ¬ (IsConfig c))
      decided none accepts = inl (refl, accepts.0 refl)
      decided (some e) accepts = inr (refl, λ is. some_ne_none e (accepts.1 is))

  setting_eq :
      (key : String)
      → layered (override key) (laws.default_of (set_defaults viper viper.new) key) ≡ setting key
  unfolding setting
  setting_eq key = ap (layered (override key)) (default_under_set key)

  load_composed :
      (name type : String)
      → load viper name type ≡ validated composed_config (validate_config composed_config)
  unfolding load
  load_composed name type =
      let paths = "./configs" ∷ "." ∷ [] in
      let v = set_defaults viper viper.new in
      let strings =
        fun_ext
          (λ key. laws.gets_string name type paths v key ∙ ap laws.string_of (setting_eq key)) in
      let ints =
        fun_ext (λ key. laws.gets_int name type paths v key ∙ ap laws.int_of (setting_eq key)) in
      let durations =
        fun_ext (λ key.
          laws.gets_duration name type paths v key ∙ ap laws.duration_of (setting_eq key)) in
      λ i. let c = config_of (strings i) (ints i) (durations i) in validated c (validate_config c)

  pub load_eq :
      (name type : String)
      → load viper name type
        ≡ validated
            (layered_config viper override laws)
            (validate_config (layered_config viper override laws))
  load_eq name type =
      subst (λ c. load viper name type ≡ validated c (validate_config c)) composed_eq
        (load_composed name type)

  -- `LoadConfig` and its kind: the result is the struct in which each setting is what the environment or
  -- the file say of it, or else its default, if every setting that is checked is given or positive;
  -- otherwise an error.
  pub load_layers :
      (name type : String)
      → ((load viper name type ≡ ok (layered_config viper override laws))
          × IsConfig (layered_config viper override laws))
        ⊎ ((load viper name type ≡ err (wrapped external))
            × ¬ (IsConfig (layered_config viper override laws)))
  load_layers name type = elim (IsConfig-cases (layered_config viper override laws)) [
    | inl (accepted, is) ↦ inl (load_eq name type ∙ accepted, is)
    | inr (refused, not_is) ↦ inr (load_eq name type ∙ refused, not_is)
  ]

validated-IsConfig :
    (c c' : Config) (o : Option (List String))
    → ((o ≡ none) ↔ IsConfig c)
    → validated c o ≡ ok c'
    → IsConfig c'
validated-IsConfig c c' none accepts e = subst IsConfig (ok_inj c c' e) (accepts.0 refl)
  where
    ok_inj : (c c' : Config) → ok c ≡ ok c' → c ≡ c'
    ok_inj c c' e = cc
validated-IsConfig c c' (some _) accepts e = absurd (err_ne_ok (wrapped external) c' e)
  where
    err_ne_ok : (x : Error) (c' : Config) → err x ≢ ok c'
    err_ne_ok x c' = λ h. cc

-- A configuration that is loaded is valid.
pub loaded-IsConfig :
    {V : Type 0} (viper : Viper V) (name : String) (c : Config)
    → load_config viper name ≡ ok c
    → IsConfig c
unfolding load_config load
loaded-IsConfig viper name c e = validated-IsConfig _ c _ (validate_config_accepts _) e
