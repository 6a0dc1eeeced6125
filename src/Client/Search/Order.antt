-- ===== src/Client/Search/Order.antt =====
-- The search string, and the order in which Go visits the selector's map.
use mathlib.Core.List.{Permᴰ}
use hyperfleet_sentinel.Base.{
  String, ◌≡◌, refl, ap, ◌∙◌, List, [], ◌∷◌, Dict, arith, str_leb_total, str_leb_trans,
  str_leb_antisymm, join,
}
use hyperfleet_sentinel.Client.Search.{
  insert_sorted, sort_strings, label_part, label_parts, label_selector_to_search_string,
}

-- Two insertions commute: the order is total, transitive and antisymmetric.
insert_sorted_comm :
    (s t : String) (l : List String)
    → insert_sorted s (insert_sorted t l) ≡ insert_sorted t (insert_sorted s l)
unfolding insert_sorted
insert_sorted_comm s t [] = ground (arith, str_leb_antisymm s t, str_leb_total s t)
insert_sorted_comm s t (u ∷ l) = ground (
  arith,
  insert_sorted_comm s t l,
  str_leb_antisymm s t,
  str_leb_total s t,
  str_leb_total s u,
  str_leb_total t u,
  str_leb_trans s t u,
  str_leb_trans t s u,
  str_leb_trans s u t,
  str_leb_trans t u s,
)

sort_strings-perm : {l r : List String} → Permᴰ l r → sort_strings l ≡ sort_strings r
unfolding sort_strings
sort_strings-perm Permᴰ.nil = refl
sort_strings-perm (Permᴰ.cons e p) = rw (e, sort_strings-perm p)
sort_strings-perm (Permᴰ.swap {a} {b} {l} e f) = rw (← e, ← f) (insert_sorted_comm a b _)
sort_strings-perm (Permᴰ.trans p q) = sort_strings-perm p ∙ sort_strings-perm q

label_parts-perm : {l r : Dict String} → Permᴰ l r → Permᴰ (label_parts l) (label_parts r)
unfolding label_parts
label_parts-perm Permᴰ.nil = Permᴰ.nil
label_parts-perm (Permᴰ.cons e p) = Permᴰ.cons (ap (λ x. label_part x.0 x.1) e) (label_parts-perm p)
label_parts-perm (Permᴰ.swap e f) =
    Permᴰ.swap (ap (λ x. label_part x.0 x.1) e) (ap (λ x. label_part x.0 x.1) f)
label_parts-perm (Permᴰ.trans p q) = Permᴰ.trans (label_parts-perm p) (label_parts-perm q)

pub search_string_eq :
    (l : Dict String)
    → label_selector_to_search_string l ≡ join " and " (sort_strings (label_parts l))
unfolding label_selector_to_search_string join
search_string_eq [] = refl
search_string_eq (entry ∷ l) = refl

-- The search string is the same for every order in which the entries of a selector are visited.
pub label_selector_to_search_string-perm :
    (l r : Dict String)
    → Permᴰ l r
    → label_selector_to_search_string l ≡ label_selector_to_search_string r
label_selector_to_search_string-perm l r p =
    rw (search_string_eq l, search_string_eq r)
      (ap (join " and ") (sort_strings-perm (label_parts-perm p)))
