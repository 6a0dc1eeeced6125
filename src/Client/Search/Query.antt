-- ===== src/Client/Search/Query.antt =====
-- What the reader gets from the search parameter of a selector.
use mathlib.Core.List.{Permᴰ}
use text.Mathlib.TextLemmas.{cons-append, append_assoc, append-nil, cons-ne-nil}
use hyperfleet_sentinel.Base.{
  ℕ, suc, String, ◌≡◌, refl, sym, ap, ◌<◌, eq_iff, ◌∙◌, false, inl, inr, some, [], ◌∷◌, Dict, arith,
  join, Bool-cases, ◌+++◌, ◌==◌, length, All,
}
use hyperfleet_sentinel.Client.Search.Order.{search_string_eq}
use hyperfleet_sentinel.Client.Search.{
  escape_quotes, label_part, label_parts, label_selector_to_search_string,
}
use hyperfleet_sentinel.Client.Search.Reader.{
  read_term, read_query, Unquoted, NoEquals, read_literal-escape_quotes, read_key-append,
  strip-append,
}
use hyperfleet_sentinel.Client.Search.Entries.{
  sort_entries, label_parts-sort_entries, sort_entries-perm,
}

label_part-append :
    (k v rest : String)
    → label_part k v +++ rest ≡ "labels." +++ k +++ "=" +++ "'" +++ escape_quotes v +++ "'" +++ rest
unfolding label_part
label_part-append k v rest =
    simp append_assoc
      (ap (λ t. "labels." +++ k +++ t) (append_assoc "=" "'" (escape_quotes v +++ "'" +++ rest)))

read_term-label_part :
    (e : String × String) (rest : String)
    → NoEquals e.0
    → Unquoted rest
    → read_term (label_part e.0 e.1 +++ rest) ≡ some (e, rest)
unfolding read_term
read_term-label_part e rest h q = rw (
  label_part-append e.0 e.1 rest,
  strip-append "labels.",
  read_key-append e.0 _ h,
  strip-append "'",
  read_literal-escape_quotes e.1 rest q,
)

Unquoted-and : (s : String) → Unquoted (" and " +++ s)
Unquoted-and s = rw cons-append refl

and-ne-empty : (s : String) → ((" and " +++ s) == "") ≡ false
and-ne-empty s = elim (Bool-cases ((" and " +++ s) == "")) [
  | inl same ↦ absurd (cons-ne-nil _ _ (sym (cons-append _ _ s) ∙ (eq_iff _ _).0 same))
  | inr other ↦ other
]

read_query-last :
    (fuel : ℕ) (e : String × String)
    → NoEquals e.0
    → read_query (suc fuel) (label_part e.0 e.1) ≡ some (e ∷ [])
unfolding read_query
read_query-last fuel e h = rw (rw append-nil at (read_term-label_part e "" h tt))

read_query-more :
    (fuel : ℕ) (e : String × String) (s : String) (l : Dict String)
    → NoEquals e.0
    → read_query fuel s ≡ some l
    → read_query (suc fuel) (label_part e.0 e.1 +++ " and " +++ s) ≡ some (e ∷ l)
unfolding read_query
read_query-more fuel e s l h q = rw (
  read_term-label_part e (" and " +++ s) h (Unquoted-and s),
  and-ne-empty s,
  strip-append " and " s,
  q,
)

-- The reader gets every entry back from the joined terms.
read_query-join :
    (e : String × String) (l : Dict String)
    → All (λ x. NoEquals x.0) (e ∷ l)
    → read_query (length (e ∷ l)) (join " and " (label_parts (e ∷ l))) ≡ some (e ∷ l)
unfolding join label_parts
read_query-join e [] h = read_query-last 0 e h.0
read_query-join e (d ∷ l) h =
    read_query-more (length (d ∷ l)) e _ (d ∷ l) h.0 (read_query-join d l h.1)

All-perm : {l r : Dict String} → Permᴰ l r → All (λ x. NoEquals x.0) r → All (λ x. NoEquals x.0) l
All-perm Permᴰ.nil h = tt
All-perm (Permᴰ.cons e p) h = (rw (ap (λ x. x.0) e) h.0, All-perm p h.1)
All-perm (Permᴰ.swap e f) h = (rw (ap (λ x. x.0) e) h.1.0, (rw (ap (λ x. x.0) f) h.0, h.1.1))
All-perm (Permᴰ.trans p q) h = All-perm p (All-perm q h)

length-perm : {l r : Dict String} → Permᴰ l r → length l ≡ length r
length-perm Permᴰ.nil = refl
length-perm (Permᴰ.cons e p) = ap suc (length-perm p)
length-perm (Permᴰ.swap e f) = refl
length-perm (Permᴰ.trans p q) = length-perm p ∙ length-perm q

read_query-sorted :
    (es : Dict String)
    → All (λ x. NoEquals x.0) es
    → 0 < length es
    → read_query (length es) (join " and " (label_parts es)) ≡ some es
read_query-sorted [] h n = absurd (omega arith)
read_query-sorted (e ∷ es) h n = read_query-join e es h

-- For a selector that is not empty, whose keys hold no equals sign, reading the search string
-- gives back the selector's entries, all of them and no others, in some order: whatever quotes
-- the values hold, no value ends its own literal or adds a term.
pub read_query-label_selector_to_search_string :
    (selector : Dict String)
    → 0 < length selector
    → All (λ x. NoEquals x.0) selector
    → (es : Dict String) × Permᴰ es selector
      × (read_query (length selector) (label_selector_to_search_string selector) ≡ some es)
read_query-label_selector_to_search_string selector n h =
    let p = sort_entries-perm selector in
    (
      sort_entries selector,
      p,
      rw (search_string_eq selector, ← label_parts-sort_entries selector, ← length-perm p)
          (read_query-sorted (sort_entries selector) (All-perm p h) (rw (length-perm p) n)),
    )
