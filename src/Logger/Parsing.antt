-- ===== src/Logger/Parsing.antt =====
-- Parsing the names that levels and formats are printed as.
use Prim.Native.Char.{code}
use hyperfleet_sentinel.Base.{zero, suc, ◌≤◌, String, ◌≡◌, refl, arith, ok, Host}
use hyperfleet_sentinel.Logger.{LogLevel, level_error, LogFormat, format_text, format_json}
use hyperfleet_sentinel.Logger.Names.{
  parse_log_level, parse_log_format, level_string, format_string,
}

abbrev pub IsLowercase : String → Type 0
IsLowercase String.[] = Unit
IsLowercase (String.◌∷◌ c s) = (0x61 ≤ code c) × (code c ≤ 0x7a) × IsLowercase s

-- The documented behaviour of `strings.TrimSpace` and `strings.ToLower` that the names rely on: a
-- text of the letters a to z has no space to trim and is its own lower case.
abbrev pub KeepsLowercase : Host → (String → String) → Type 0
KeepsLowercase host trim_space = (s : String) → IsLowercase s → host.to_lower (trim_space s) ≡ s

parse_level :
    (host : Host) (trim_space : String → String) (l : LogLevel)
    → KeepsLowercase host trim_space
    → l ≤ level_error
    → parse_log_level host trim_space (level_string l) ≡ ok l
unfolding parse_log_level level_string
parse_level host trim_space zero keeps h = rw (keeps "debug" (ground arith)) refl
parse_level host trim_space (suc zero) keeps h = rw (keeps "info" (ground arith)) refl
parse_level host trim_space (suc (suc zero)) keeps h = rw (keeps "warn" (ground arith)) refl
parse_level host trim_space (suc (suc (suc zero))) keeps h = rw (keeps "error" (ground arith)) refl
parse_level host trim_space (suc (suc (suc (suc l)))) keeps h = absurd (omega (arith, h))

parse_format :
    (host : Host) (trim_space : String → String) (f : LogFormat)
    → KeepsLowercase host trim_space
    → parse_log_format host trim_space (format_string f) ≡ ok f
unfolding parse_log_format format_string
parse_format host trim_space format_text keeps = rw (keeps "text" (ground arith)) refl
parse_format host trim_space format_json keeps = rw (keeps "json" (ground arith)) refl

-- Every level and every format is what its name is parsed as, when trimming and lower-casing keep
-- a text of lower-case letters.
pub parse_log_level-level_string :
    (host : Host) (trim_space : String → String) (l : LogLevel) (f : LogFormat)
    → KeepsLowercase host trim_space
    → l ≤ level_error
    → (parse_log_level host trim_space (level_string l) ≡ ok l)
      × (parse_log_format host trim_space (format_string f) ≡ ok f)
parse_log_level-level_string host trim_space l f keeps h =
    (parse_level host trim_space l keeps h, parse_format host trim_space f keeps)
