-- ===== src/Serve/Main.antt =====
-- cmd/sentinel/main.go: `main`, which runs the command that the arguments name. What the library of
-- commands prints itself, as helps and usages, is left out.
pub mod Laws
pub mod Given
pub mod Settings
use hyperfleet_sentinel.Base.{
  ℕ, String, Option, none, some, List, [], ◌∷◌, Result, ok, err, ◌+++◌, ◌==◌, if◌then◌else◌, join,
}
use hyperfleet_sentinel.Config.{SentinelConfig}
use hyperfleet_sentinel.Config.Loading.{Viper, FlagSet, Flag}
use hyperfleet_sentinel.Serve.{Machine}
use hyperfleet_sentinel.Serve.Actions.{Action, Failure, returned, panicked}
use hyperfleet_sentinel.Serve.Command.{Outcome, serve_command, run_config_dump}
use hyperfleet_sentinel.Serve.Flags.{Command, serve, config_dump, version, flags_of, Declaration}

-- What the flag library makes of the arguments of a command.
pub data Parsed : Type 0 where
  help : Parsed
  invalid : String → Parsed
  flags : FlagSet → Parsed

-- The library of commands: which command the arguments name, with those that are left for it, none
-- where the library answers by itself, as the root does by its help; and the parsed flags.
pub record Cobra : Type 0 where
  pub find : List String → Result String (Option (Command × List String))
  pub parse : List Declaration → List String → Parsed

-- What is set when the program is linked.
pub record Build : Type 0 where
  pub version : String
  pub commit : String
  pub date : String

-- How a command or the process ends, after its actions and what it has printed.
pub record Run : Type 0 where
  pub result : Result Failure (Unit {0})
  pub actions : List Action
  pub printed : String

pub data Ending : Type 0 where
  exited : ℕ → Ending
  crashed : Ending

-- Beside the log lines, which the loggers write to stdout or stderr as configured and which are
-- left out here: the text that the command itself prints on stdout, and the line that `main` prints
-- on stderr for an error that it gets, empty if it prints none.
pub record Process : Type 0 where
  pub ending : Ending
  pub actions : List Action
  pub printed : String
  pub error_line : String

abbrev pub failed : String → Run
failed e = record { result = err (returned e); actions = []; printed = "" }

abbrev pub prints : String → Run
prints s = record { result = ok tt; actions = []; printed = s }

-- A variable that a flag is bound to.
abbrev pub flag_value : Option Flag → String
flag_value none = ""
flag_value (some flag) = flag.value

abbrev printed_version : Build → String
printed_version b =
    "Version:    " +++ b.version +++ "\n" +++ "Commit:     " +++ b.commit +++ "\n"
    +++ "Build Date: " +++ b.date +++ "\n"

abbrev pub of_outcome : Outcome → Run
of_outcome (result, actions) = record { result = result; actions = actions; printed = "" }

abbrev pub of_dump : Result String String → Run
of_dump (err e) = failed e
of_dump (ok text) = prints text

abbrev pub command_line : List String → String
command_line args = if join " " args == "" then "(no command)" else join " " args

-- What `main` makes of the outcome. A panic ends the process with the runtime's own message.
abbrev pub finish : List String → Run → Process
finish args r = elim r.result [
  | ok _ ↦ record { ending = exited 0; actions = r.actions; printed = r.printed; error_line = "" }
  | err e ↦ elim e [
    | returned message ↦ record {
      ending = exited 1;
      actions = r.actions;
      printed = r.printed;
      error_line =
          "Error executing command 'sentinel " +++ command_line args +++ "': " +++ message +++ "\n";
    }
    | panicked ↦ record {
      ending = crashed;
      actions = r.actions;
      printed = r.printed;
      error_line = "";
    }
  ]
]

module _ (m : Machine) (viper : Viper) (marshal : SentinelConfig → Result String String)
    (build : Build) (cobra : Cobra) where
  unfoldable pub run_command : Command → FlagSet → Run
  run_command serve fs = of_outcome (serve_command m viper (flag_value (fs "config")) (some fs))
  run_command config_dump fs =
      of_dump (run_config_dump m viper marshal (flag_value (fs "config")) (some fs))
  run_command version fs = prints (printed_version build)

  abbrev run_parsed : Command → Parsed → Run
  run_parsed c help = prints ""
  run_parsed c (invalid e) = failed e
  run_parsed c (flags fs) = run_command c fs

  abbrev run_found : Result String (Option (Command × List String)) → Run
  run_found (err e) = failed e
  run_found (ok none) = prints ""
  run_found (ok (some (c, args))) = run_parsed c (cobra.parse (flags_of c) args)

  -- `rootCmd.Execute`
  unfoldable pub execute : List String → Run
  unfolding run_command
  execute args = run_found (cobra.find args)

  unfoldable pub main : List String → Process
  unfolding execute
  main args = finish args (execute args)
