-- ===== src/Tests/Main.antt =====
-- The theorems of the commands and their flags, for a reader of arguments `--name=value`.
use Prim.Native.Char.{code}
use hyperfleet_sentinel.Base.{
  String, ◌≡◌, refl, ap, Bool, true, false, not, ◌&&◌, Option, none, some, List, [], ◌∷◌, Result,
  ok, err, ◌+++◌, ◌==◌, if◌then◌else◌, All, All-In, inl, inr, arith, In, ◌⊎◌, eqb, insert, subst,
}
use hyperfleet_sentinel.Client.Search.Reader.{
  read_key, strip, NoEquals, read_key-append, strip-append,
}
use hyperfleet_sentinel.Config.{SentinelConfig}
use hyperfleet_sentinel.Config.Decision.{validate_decision}
use hyperfleet_sentinel.Config.Leaves.{validate_message_data_leaves}
use hyperfleet_sentinel.Config.Validation.{validate}
use hyperfleet_sentinel.Config.Loading.{load_config}
use hyperfleet_sentinel.Serve.{Machine}
use hyperfleet_sentinel.Serve.Flags.{
  Command, serve, config_dump, version, use_of, flags_of, Declaration, text, switch, config_flag,
  config_override_flags,
}
use hyperfleet_sentinel.Serve.Main.{flags, Cobra, Build, execute, main}
use hyperfleet_sentinel.Serve.Flags.Laws.{flags_of-Clash, Clash, flags_of-IsRead, IsRead, IsOwn}
use hyperfleet_sentinel.Serve.Main.Laws.{Ends, main-Ends}
use hyperfleet_sentinel.Serve.Main.Given.{Given, render, flags_given, IsText, IsCobra}
use hyperfleet_sentinel.Serve.Main.Settings.{execute_given, RunsOn, HasSettings}
use hyperfleet_sentinel.Tests.Data.{host}
use hyperfleet_sentinel.Tests.Serve.{machine}
use hyperfleet_sentinel.Tests.Loading.{viper, viper-IsViper, getenv, loaded}

abbrev keep : Option (String × String) → Given → Given
keep none given = given
keep (some (name, value)) given = (name, value) ∷ given

abbrev named : Option String → Option (String × String)
named none = none
named (some rest) = read_key rest

abbrev read_args : List String → Given
read_args [] = []
read_args (arg ∷ args) = keep (named (strip "--" arg)) (read_args args)

read_args-render :
    (given : Given) → All (λ g. NoEquals g.0) given → read_args (render given) ≡ given
read_args-render [] h = refl
read_args-render ((name, value) ∷ given) (plain, h) =
    rw
      (
        strip-append "--" (name +++ "=" +++ value),
        read_key-append name value plain,
        read_args-render given h,
      )
      refl

no_equals : String → Bool
no_equals String.[] = true
no_equals (String.◌∷◌ c s) = not (eqb (code c) 0x3d) && no_equals s

no_equals-NoEquals : (s : String) → no_equals s ≡ true → NoEquals s
unfolding no_equals
no_equals-NoEquals String.[] h = tt
no_equals-NoEquals (String.◌∷◌ c s) h =
    (ground (arith, h), no_equals-NoEquals s (ground (arith, h)))

names_plain : (c : Command) → All (λ (d : Declaration). no_equals d.name ≡ true) (flags_of c)
unfolding no_equals
names_plain serve = (
  refl,
  (
    refl,
    (
      refl,
      (
        refl,
        (refl, (refl, (refl, (refl, (refl, (refl, (refl, (refl, (refl, (refl, (refl, tt))))))))))),
      ),
    ),
  ),
)
names_plain config_dump = (
  refl,
  (
    refl,
    (refl, (refl, (refl, (refl, (refl, (refl, (refl, (refl, (refl, (refl, (refl, tt))))))))))),
  ),
)
names_plain version = tt

IsText-NoEquals :
    (c : Command) (given : Given) → All (IsText (flags_of c)) given → All (λ g. NoEquals g.0) given
IsText-NoEquals c [] h = tt
IsText-NoEquals c ((name, value) ∷ given) ((d, declared, same, _), h) = (
  subst NoEquals same (
      no_equals-NoEquals d.name (
        All-In (λ (e : Declaration). no_equals e.name ≡ true) d (flags_of c) (names_plain c)
          declared)),
  IsText-NoEquals c given h,
)

abbrev command_of : String → Option Command
command_of name =
    if name == "serve"
    then some serve
    else if name == "config-dump"
    then some config_dump
    else if name == "version"
    then some version
    else none

abbrev found_command : Option Command → List String → Result String (Option (Command × List String))
found_command none args = err "unknown command"
found_command (some c) args = ok (some (c, args))

abbrev find : List String → Result String (Option (Command × List String))
find [] = ok none
find (name ∷ args) = found_command (command_of name) args

abbrev cobra : Cobra
cobra = record { find = find; parse = λ ds args. flags (flags_given ds (read_args args)) }

command_of-use_of : (c : Command) → command_of (use_of c) ≡ some c
command_of-use_of serve = refl
command_of-use_of config_dump = refl
command_of-use_of version = refl

cobra-IsCobra : IsCobra cobra
cobra-IsCobra = record {
  found = λ c given h. rw (command_of-use_of c) refl;
  parsed = λ c given h.
      ap (λ g. flags (flags_given (flags_of c) g))
        (read_args-render given (IsText-NoEquals c given h));
}

abbrev getting_machine : Machine
getting_machine = record machine { getenv = getenv }

abbrev build : Build
build = record { version = "dev"; commit = "none"; date = "unknown" }

abbrev given : Given
given = ("name", "ignored") ∷ ("log-level", "debug") ∷ ("name", "watcher") ∷ []

abbrev marshal : SentinelConfig → Result String String
marshal cfg = ok "yaml"

name_declared : (value : String) → IsText (flags_of serve) ("name", value)
name_declared value = (_, inr (inr (inr (inr (inl refl)))), refl, (_, refl))

log_level_declared : (value : String) → IsText (flags_of serve) ("log-level", value)
log_level_declared value = (_, inr (inr (inr (inr (inr (inl refl))))), refl, (_, refl))

is_given : All (IsText (flags_of serve)) given
is_given = (name_declared "ignored", (log_level_declared "debug", (name_declared "watcher", tt)))

given_loads :
    load_config viper host getenv "" (some (flags_given (flags_of serve) given)) ≡ ok loaded
unfolding load_config validate_message_data_leaves validate insert validate_decision
given_loads = refl

execute_given_example :
    RunsOn getting_machine viper-IsViper marshal build cobra-IsCobra serve
      (ok loaded)
      (execute getting_machine viper marshal build cobra ("serve" ∷ render given))
    × HasSettings getting_machine viper-IsViper marshal build cobra-IsCobra given (ok loaded)
execute_given_example =
    execute_given getting_machine viper-IsViper marshal build cobra-IsCobra serve given (ok loaded)
      (λ e. cc) is_given given_loads

abbrev tail_of : List Declaration → List Declaration
tail_of [] = []
tail_of (d ∷ ds) = ds

abbrev rest : List Declaration
rest = tail_of (tail_of (tail_of config_override_flags))

abbrev debug_flag : Declaration
debug_flag = record {
  name = "debug-config";
  shorthand = "";
  default = switch false;
  usage = "Log the full merged configuration after load. Env: HYPERFLEET_DEBUG_CONFIG";
}

-- The flags of the name and of the log level, with the one of the debug log before them.
flags_of-Clash_example :
    ¬ Clash
      (record {
        name = "name";
        shorthand = "n";
        default = text "";
        usage = "Sentinel component name. Env: HYPERFLEET_SENTINEL_NAME";
      })
      (record {
        name = "log-level";
        shorthand = "l";
        default = text "";
        usage = "Log level: debug, info, warn, error. Env: HYPERFLEET_LOG_LEVEL";
      })
flags_of-Clash_example = flags_of-Clash config_dump _ _ (config_flag ∷ debug_flag ∷ []) [] rest refl

-- The flag --config of serve is its own, and the flag --name is declared for LoadConfig.
flags_of-IsRead_example :
    (IsOwn serve config_flag ⊎ IsRead config_flag)
    × ((f : Declaration) × In f (flags_of serve) × (f.name ≡ "name"))
flags_of-IsRead_example =
    flags_of-IsRead serve config_flag "name" (λ e. cc) (inl refl) (inr (inl refl))

main-Ends_example :
    Ends getting_machine viper marshal build cobra
      ("serve" ∷ "--name=watcher" ∷ [])
      (execute getting_machine viper marshal build cobra ("serve" ∷ "--name=watcher" ∷ []))
      (main getting_machine viper marshal build cobra ("serve" ∷ "--name=watcher" ∷ []))
main-Ends_example =
    main-Ends getting_machine viper marshal build cobra ("serve" ∷ "--name=watcher" ∷ [])
