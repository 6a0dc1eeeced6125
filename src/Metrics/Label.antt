-- ===== src/Metrics/Label.antt =====
-- The selector's label: `GetResourceSelectorLabel`.
use text.Mathlib.TextLemmas.{
  append_assoc, append-nil, nil-append, cons-append, cons-ne-nil, append-ne-nil_of_right_ne-nil,
}
use hyperfleet_sentinel.Base.{
  ℕ, suc, String, ◌≡◌, ◌≢◌, refl, sym, ap, ◌∙◌, [], ◌∷◌, map, join, ◌+++◌, arith, true, ltb, eq_iff,
}
use hyperfleet_sentinel.Config.{LabelSelector, LabelSelectorList}
use hyperfleet_sentinel.Metrics.{write_selectors, get_resource_selector_label}

abbrev pub pair_text : LabelSelector → String
pair_text s = s.label +++ ":" +++ s.value

-- "all", or the pairs with commas between them.
abbrev pub label_text : LabelSelectorList → String
label_text [] = "all"
label_text (s ∷ ls) = join "," (map pair_text (s ∷ ls))

-- Every pair with a comma before it.
abbrev commas : LabelSelectorList → String
commas [] = ""
commas (s ∷ ls) = "," +++ pair_text s +++ commas ls

later_index : (i : ℕ) → ltb 0 (suc i) ≡ true
later_index i = ground arith

write_selectors-suc :
    (i : ℕ) (builder : String) (ls : LabelSelectorList)
    → write_selectors (suc i) builder ls ≡ builder +++ commas ls
unfolding write_selectors
write_selectors-suc i builder [] = sym (append-nil builder)
write_selectors-suc i builder (s ∷ ls) =
    rw (later_index i)
      (write_selectors-suc (suc i) ((builder +++ ",") +++ pair_text s) ls ∙ simp append_assoc refl)

commas-join :
    (s : LabelSelector) (ls : LabelSelectorList)
    → pair_text s +++ commas ls ≡ join "," (map pair_text (s ∷ ls))
unfolding join
commas-join s [] = append-nil (pair_text s)
commas-join s (t ∷ ls) = ap (λ x. pair_text s +++ "," +++ x) (commas-join t ls)

-- The label of some selectors is their `label:value` pairs with commas between them.
get_resource_selector_label-cons :
    (s : LabelSelector) (ls : LabelSelectorList)
    → get_resource_selector_label (s ∷ ls) ≡ join "," (map pair_text (s ∷ ls))
unfolding get_resource_selector_label
get_resource_selector_label-cons s ls =
    write_selectors-suc 0 ("" +++ pair_text s) ls
    ∙ ap (λ x. x +++ commas ls) (nil-append (pair_text s))
    ∙ commas-join s ls

pair_text-ne-empty : (s : LabelSelector) → pair_text s ≢ ""
pair_text-ne-empty s =
    append-ne-nil_of_right_ne-nil s.label (λ e. cons-ne-nil _ _ (sym (cons-append _ _ s.value) ∙ e))

join-ne-empty :
    (s : LabelSelector) (ls : LabelSelectorList) → join "," (map pair_text (s ∷ ls)) ≢ ""
unfolding join
join-ne-empty s [] = pair_text-ne-empty s
join-ne-empty s (t ∷ ls) =
    append-ne-nil_of_right_ne-nil (pair_text s)
      (λ e. cons-ne-nil _ _ (sym (cons-append _ _ (join "," (map pair_text (t ∷ ls)))) ∙ e))

-- The label is "all" for no selectors, else the `label:value` pairs with commas between them; it
-- is never empty.
pub get_resource_selector_label_lem :
    (selectors : LabelSelectorList)
    → (get_resource_selector_label selectors ≡ label_text selectors)
      × (get_resource_selector_label selectors ≢ "")
get_resource_selector_label_lem [] =
    unfold get_resource_selector_label in (refl, λ e. cc ((eq_iff "all" "").1 e))
get_resource_selector_label_lem (s ∷ ls) =
    let e = get_resource_selector_label-cons s ls in (e, λ h. join-ne-empty s ls (sym e ∙ h))
