-- ===== src/Tests/Loading.antt =====
-- The theorem of the loading, for a file with a name, a resource type and a log level, the flag
-- --log-level, and the environment variable HYPERFLEET_RESOURCE_TYPE.
use hyperfleet_sentinel.Base.{
  String, ◌≡◌, refl, ap, sym, ◌∙◌, true, Option, none, some, [], ◌∷◌, Dict, lookup, insert,
  lookup-insert, ok, ok_inj, ◌==◌, if◌then◌else◌, Environment, object,
}
use hyperfleet_sentinel.Config.{SentinelConfig}
use hyperfleet_sentinel.Config.Decision.{validate_decision}
use hyperfleet_sentinel.Config.Leaves.{validate_message_data_leaves}
use hyperfleet_sentinel.Config.Validation.{validate}
use hyperfleet_sentinel.Config.Loading.{Viper, FlagSet, load_config}
use hyperfleet_sentinel.Config.Loading.Laws.{load_config_lem, IsLoaded}
use hyperfleet_sentinel.Config.Loading.Settings.{
  Setting, sentinel_name, resource_type, log_level, log_format, log_output, key_of, setting,
  by_precedence, variable_value, IsViper,
}
use hyperfleet_sentinel.Tests.Data.{host, config, message_data}

pub record State : Type 0 where
  pub overrides : Dict String
  pub variables : Dict String
  pub entries : Dict String

abbrev pub getenv : Environment
getenv name = if name == "HYPERFLEET_RESOURCE_TYPE" then "nodepools" else ""

abbrev pub value : State → String → String → String
unfolding lookup
value s key default_value =
    by_precedence (lookup key s.overrides) (variable_value getenv (lookup key s.variables))
      (lookup key s.entries) default_value

abbrev pub unmarshal : State → SentinelConfig → SentinelConfig
unfolding lookup
unmarshal s base = record config {
  sentinel = record { name = value s "sentinel::name" base.sentinel.name };
  resource_type = value s "resource_type" base.resource_type;
  log = record {
    level = value s "log::level" base.log.level;
    format = value s "log::format" base.log.format;
    output = value s "log::output" base.log.output;
  };
}

abbrev pub file_entries : Dict String
file_entries =
    ("sentinel::name", "watcher") ∷ ("resource_type", "clusters") ∷ ("log::level", "warn") ∷ []

abbrev pub viper : Viper
viper = record {
  State = State;
  read_in_config = λ path. ok (record { overrides = []; variables = []; entries = file_entries });
  bind_env = λ s path name. ok (record s { variables = insert path name s.variables });
  set = λ s path text. record s { overrides = insert path text s.overrides };
  unmarshal_exact = λ s base. ok (unmarshal s base);
  get = λ s key. some (object message_data);
}

unmarshal-setting :
    (x : Setting) (s : State) (base : SentinelConfig)
    → setting x (unmarshal s base) ≡ value s (key_of x) (setting x base)
unfolding value unmarshal
unmarshal-setting sentinel_name s base = refl
unmarshal-setting resource_type s base = refl
unmarshal-setting log_level s base = refl
unmarshal-setting log_format s base = refl
unmarshal-setting log_output s base = refl

pub viper-IsViper : IsViper viper getenv
unfolding lookup
viper-IsViper = record {
  override = λ s key. lookup key s.overrides;
  variable = λ s key. lookup key s.variables;
  file = λ s key. lookup key s.entries;
  override_read = λ key h. rw (sym (ok_inj h)) refl;
  override_bind = λ key h. rw (sym (ok_inj h)) refl;
  variable_bind =
      λ {s} {t} {path} {name} key h. rw (sym (ok_inj h)) (lookup-insert path key name s.variables);
  file_bind = λ key h. rw (sym (ok_inj h)) refl;
  override_set = λ s path text key. lookup-insert path key text s.overrides;
  variable_set = λ s path text key. refl;
  file_set = λ s path text key. refl;
  unmarshalled =
      λ {s} {base} {cfg} x h. ap (setting x) (sym (ok_inj h)) ∙ unmarshal-setting x s base;
}

abbrev pub flags : Option FlagSet
flags = some (λ name.
    if name == "log-level" then some (record { changed = true; value = "debug" }) else none)

abbrev pub loaded : SentinelConfig
loaded = record config {
  sentinel = record { name = "watcher" };
  resource_type = "nodepools";
  log = record { level = "debug"; format = "json"; output = "stdout" };
}

is_loaded : load_config viper host getenv "" flags ≡ ok loaded
unfolding load_config validate_message_data_leaves validate insert validate_decision
is_loaded = refl

load_config_lem_example : IsLoaded viper-IsViper "" flags loaded
load_config_lem_example = load_config_lem viper-IsViper host "" flags loaded is_loaded
