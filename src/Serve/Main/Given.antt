-- ===== src/Serve/Main/Given.antt =====
-- Flags that are given by `--name=value`: what the library makes of them, and what their values are.
use hyperfleet_sentinel.Base.{
  String, ◌≡◌, ◌≢◌, refl, true, false, Option, none, some, List, [], ◌∷◌, ok, ◌+++◌, ◌==◌,
  if◌then◌else◌, All, In,
}
use hyperfleet_sentinel.Config.Loading.{FlagSet, Flag, changed_value}
use hyperfleet_sentinel.Config.Loading.Settings.{
  Setting, sentinel_name, resource_type, log_level, log_format, log_output, flag_of,
}
use hyperfleet_sentinel.Serve.Flags.{
  Command, serve, config_dump, version, use_of, flags_of, Declaration, Default, text, switch,
}
use hyperfleet_sentinel.Serve.Main.{flags, Cobra, flag_value}

-- Names of flags with the values that they are given, in order.
abbrev pub Given : Type 0
Given = List (String × String)

abbrev pub render : Given → List String
render [] = []
render ((name, value) ∷ given) = ("--" +++ name +++ "=" +++ value) ∷ render given

-- The last value that a flag is given counts.
abbrev pub last_value : String → Given → Option String → Option String
last_value name [] before = before
last_value name ((n, value) ∷ given) before =
    last_value name given (if n == name then some value else before)

abbrev pub given_value : String → Given → Option String
given_value name given = last_value name given none

abbrev pub default_text : Default → String
default_text (text s) = s
default_text (switch b) = if b then "true" else "false"

abbrev pub flag_given : Default → Option String → Flag
flag_given d none = record { changed = false; value = default_text d }
flag_given d (some value) = record { changed = true; value = value }

-- The flags that are declared, with what they are given.
abbrev pub flags_given : List Declaration → Given → FlagSet
flags_given [] given name = none
flags_given (d ∷ ds) given name =
    if d.name == name
    then some (flag_given d.default (given_value name given))
    else flags_given ds given name

abbrev pub IsText : List Declaration → (String × String) → Type 0
IsText ds (name, value) =
    (d : Declaration) × In d ds × (d.name ≡ name) × ((s : String) × (d.default ≡ text s))

-- The documented behaviour of the library on commands that are named first and on flags of texts:
-- each is looked up with the last value that it is given, or as unchanged with its default.
pub record IsCobra (cobra : Cobra) : Type 0 where
  pub found :
      (c : Command) (given : Given)
      → All (IsText (flags_of c)) given
      → cobra.find (use_of c ∷ render given) ≡ ok (some (c, render given))
  pub parsed :
      (c : Command) (given : Given)
      → All (IsText (flags_of c)) given
      → cobra.parse (flags_of c) (render given) ≡ flags (flags_given (flags_of c) given)

pub if_changed-flag_given :
    (d : Default) (o : Option String) → changed_value (some (λ _. some (flag_given d o))) "" ≡ o
if_changed-flag_given d none = refl
if_changed-flag_given d (some value) = refl

pub changed_value-flags_given :
    (c : Command) (given : Given) (x : Setting)
    → c ≢ version
    → changed_value (some (flags_given (flags_of c) given)) (flag_of x)
      ≡ given_value (flag_of x) given
changed_value-flags_given version given x h = absurd (h refl)
changed_value-flags_given serve given sentinel_name h = if_changed-flag_given (text "") _
changed_value-flags_given serve given resource_type h = if_changed-flag_given (text "") _
changed_value-flags_given serve given log_level h = if_changed-flag_given (text "") _
changed_value-flags_given serve given log_format h = if_changed-flag_given (text "") _
changed_value-flags_given serve given log_output h = if_changed-flag_given (text "") _
changed_value-flags_given config_dump given sentinel_name h = if_changed-flag_given (text "") _
changed_value-flags_given config_dump given resource_type h = if_changed-flag_given (text "") _
changed_value-flags_given config_dump given log_level h = if_changed-flag_given (text "") _
changed_value-flags_given config_dump given log_format h = if_changed-flag_given (text "") _
changed_value-flags_given config_dump given log_output h = if_changed-flag_given (text "") _

-- The file that --config gives, or the empty text.
abbrev pub file_given : Option String → String
file_given none = ""
file_given (some path) = path

pub flag_value-flag_given :
    (o : Option String) → flag_value (some (flag_given (text "") o)) ≡ file_given o
flag_value-flag_given none = refl
flag_value-flag_given (some path) = refl

pub config_given :
    (c : Command) (given : Given)
    → c ≢ version
    → flag_value (flags_given (flags_of c) given "config") ≡ file_given (given_value "config" given)
config_given version given h = absurd (h refl)
config_given serve given h = flag_value-flag_given (given_value "config" given)
config_given config_dump given h = flag_value-flag_given (given_value "config" given)
