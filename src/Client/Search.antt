-- ===== src/Client/Search.antt =====
-- The TSL search parameter: `labelSelectorToSearchString` and `buildSearchString`.
pub mod Order
pub mod Reader
pub mod Entries
pub mod Query
use Prim.Native.Char.{code}
use Prim.Native.String
use hyperfleet_sentinel.Base.{
  String, List, [], ◌∷◌, map, Dict, eqb, if◌then◌else◌, ◌+++◌, ◌==◌, str_leb, join,
}

-- strings.ReplaceAll(v, "'", "''")
unfoldable pub escape_quotes : String → String
escape_quotes String.[] = ""
escape_quotes (String.◌∷◌ c s) =
    let rest = escape_quotes s in
    if eqb (code c) 0x27 then String.◌∷◌ c (String.◌∷◌ c rest) else String.◌∷◌ c rest

unfoldable pub label_part : String → String → String
label_part k v = "labels." +++ k +++ "='" +++ escape_quotes v +++ "'"

insert_sorted : String → List String → List String
insert_sorted s [] = s ∷ []
insert_sorted s (t ∷ l) =
    let rest = insert_sorted s l in if str_leb s t then s ∷ t ∷ l else t ∷ rest

-- sort.Strings: equal strings cannot be told apart, so every correct sort is this function.
unfoldable pub sort_strings : List String → List String
unfolding insert_sorted
sort_strings [] = []
sort_strings (s ∷ l) = insert_sorted s (sort_strings l)

pub label_parts : Dict String → List String
unfolding label_part
label_parts [] = []
label_parts ((k, v) ∷ selector) = label_part k v ∷ label_parts selector

unfoldable pub label_selector_to_search_string : Dict String → String
unfolding label_parts sort_strings
label_selector_to_search_string [] = ""
label_selector_to_search_string (entry ∷ selector) =
    join " and " (sort_strings (label_parts (entry ∷ selector)))

non_empty : List String → List String
non_empty [] = []
non_empty (f ∷ filters) = let rest = non_empty filters in if f == "" then rest else f ∷ rest

unfoldable pub build_search_string : Dict String → List String → String
unfolding non_empty
build_search_string selector additional_filters =
    let label_search = label_selector_to_search_string selector in
    join " and " (
      if label_search == ""
      then non_empty additional_filters
      else label_search ∷ non_empty additional_filters)
