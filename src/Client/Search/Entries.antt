-- ===== src/Client/Search/Entries.antt =====
-- The entries of a selector in the order of their terms in the search parameter.
use mathlib.Core.List.{Permᴰ}
use mathlib.Core.List.Permᴰ
use hyperfleet_sentinel.Base.{
  String, ◌≡◌, refl, inl, inr, [], ◌∷◌, Dict, arith, str_leb, Bool-cases, if◌then◌else◌,
}
use hyperfleet_sentinel.Client.Search.{insert_sorted, sort_strings, label_part, label_parts}

insert_entry : String × String → Dict String → Dict String
insert_entry e [] = e ∷ []
insert_entry e (d ∷ l) =
    let rest = insert_entry e l in
    if str_leb (label_part e.0 e.1) (label_part d.0 d.1) then e ∷ d ∷ l else d ∷ rest

pub sort_entries : Dict String → Dict String
sort_entries [] = []
sort_entries (e ∷ l) = insert_entry e (sort_entries l)

label_parts-insert_entry :
    (e : String × String) (l : Dict String)
    → label_parts (insert_entry e l) ≡ insert_sorted (label_part e.0 e.1) (label_parts l)
unfolding insert_entry insert_sorted label_parts
label_parts-insert_entry e [] = refl
label_parts-insert_entry e (d ∷ l) = ground (arith, label_parts-insert_entry e l)

sort_strings-label_parts :
    (e : String × String) (l : Dict String)
    → sort_strings (label_parts (e ∷ l))
      ≡ insert_sorted (label_part e.0 e.1) (sort_strings (label_parts l))
unfolding sort_strings label_parts
sort_strings-label_parts e l = refl

pub label_parts-sort_entries :
    (l : Dict String) → label_parts (sort_entries l) ≡ sort_strings (label_parts l)
unfolding sort_entries
label_parts-sort_entries [] = unfold label_parts sort_strings in refl
label_parts-sort_entries (e ∷ l) = rw (
  sort_strings-label_parts e l,
  label_parts-insert_entry e (sort_entries l),
  label_parts-sort_entries l,
)

insert_entry-perm : (e : String × String) (l : Dict String) → Permᴰ (insert_entry e l) (e ∷ l)
unfolding insert_entry
insert_entry-perm e [] = Permᴰ.refl _
insert_entry-perm e (d ∷ l) =
    elim (Bool-cases (str_leb (label_part e.0 e.1) (label_part d.0 d.1))) [
      | inl first ↦ rw first (Permᴰ.refl _)
      | inr later ↦
          rw later (Permᴰ.trans (Permᴰ.cons refl (insert_entry-perm e l)) (Permᴰ.swap refl refl))
    ]

pub sort_entries-perm : (l : Dict String) → Permᴰ (sort_entries l) l
unfolding sort_entries
sort_entries-perm [] = Permᴰ.nil
sort_entries-perm (e ∷ l) =
    Permᴰ.trans (insert_entry-perm e (sort_entries l)) (Permᴰ.cons refl (sort_entries-perm l))
