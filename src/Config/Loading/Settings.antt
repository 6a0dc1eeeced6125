-- ===== src/Config/Loading/Settings.antt =====
-- The settings, where a user sets each, and the documented behaviour of viper on them.
use hyperfleet_sentinel.Base.{String, ◌≡◌, Option, none, some, ok, ◌==◌, if◌then◌else◌, Environment}
use hyperfleet_sentinel.Config.{SentinelConfig}
use hyperfleet_sentinel.Config.Loading.{Viper}

-- The settings that are texts, other than those of the clients.
pub data Setting : Type 0 where
  sentinel_name resource_type log_level log_format log_output : Setting

-- Where a user sets it: the key in the file, the flag and the environment variable.
abbrev pub key_of : Setting → String
key_of sentinel_name = "sentinel::name"
key_of resource_type = "resource_type"
key_of log_level = "log::level"
key_of log_format = "log::format"
key_of log_output = "log::output"

abbrev pub flag_of : Setting → String
flag_of sentinel_name = "name"
flag_of resource_type = "resource-type"
flag_of log_level = "log-level"
flag_of log_format = "log-format"
flag_of log_output = "log-output"

abbrev pub variable_of : Setting → String
variable_of sentinel_name = "HYPERFLEET_SENTINEL_NAME"
variable_of resource_type = "HYPERFLEET_RESOURCE_TYPE"
variable_of log_level = "HYPERFLEET_LOG_LEVEL"
variable_of log_format = "HYPERFLEET_LOG_FORMAT"
variable_of log_output = "HYPERFLEET_LOG_OUTPUT"

abbrev pub setting : Setting → SentinelConfig → String
setting sentinel_name cfg = cfg.sentinel.name
setting resource_type cfg = cfg.resource_type
setting log_level cfg = cfg.log.level
setting log_format cfg = cfg.log.format
setting log_output cfg = cfg.log.output

abbrev pub or_else : Option String → Option String → Option String
or_else (some s) o = some s
or_else none o = o

abbrev or_text : Option String → String → String
or_text (some s) text = s
or_text none text = text

-- The flag, else a variable that is not empty, else the file, else the default.
abbrev pub by_precedence : Option String → String → Option String → String → String
by_precedence (some flag) variable file default_value = flag
by_precedence none variable file default_value =
    if variable == "" then or_text file default_value else variable

abbrev pub variable_value : Environment → Option String → String
variable_value getenv none = ""
variable_value getenv (some name) = getenv name

-- The documented behaviour of viper: each call acts on its layer and key only, and a text is
-- unmarshalled from the first layer that has it: `Set`, the bound environment variable if it is
-- not empty, the file, and what the struct holds.
pub record IsViper (viper : Viper) (getenv : Environment) : Type 0 where
  pub override : viper.State → String → Option String
  pub variable : viper.State → String → Option String
  pub file : viper.State → String → Option String
  pub override_read :
      {path : String} {s : viper.State} (key : String)
      → viper.read_in_config path ≡ ok s
      → override s key ≡ none
  pub override_bind :
      {s t : viper.State} {path name : String} (key : String)
      → viper.bind_env s path name ≡ ok t
      → override t key ≡ override s key
  pub variable_bind :
      {s t : viper.State} {path name : String} (key : String)
      → viper.bind_env s path name ≡ ok t
      → variable t key ≡ (if path == key then some name else variable s key)
  pub file_bind :
      {s t : viper.State} {path name : String} (key : String)
      → viper.bind_env s path name ≡ ok t
      → file t key ≡ file s key
  pub override_set :
      (s : viper.State) (path value key : String)
      → override (viper.set s path value) key ≡ (if path == key then some value else override s key)
  pub variable_set :
      (s : viper.State) (path value key : String)
      → variable (viper.set s path value) key ≡ variable s key
  pub file_set :
      (s : viper.State) (path value key : String) → file (viper.set s path value) key ≡ file s key
  pub unmarshalled :
      {s : viper.State} {base cfg : SentinelConfig} (x : Setting)
      → viper.unmarshal_exact s base ≡ ok cfg
      → setting x cfg
        ≡ by_precedence
            (override s (key_of x))
            (variable_value getenv (variable s (key_of x)))
            (file s (key_of x))
            (setting x base)
