-- ===== src/Config/Selector.antt =====
-- `LabelSelectorList.ToMap`. The map's nil value, for an empty list, is the empty map here.
use hyperfleet_sentinel.Base.{
  String, ◌≡◌, refl, false, Option, none, some, [], ◌∷◌, Dict, lookup, insert, lookup-insert, arith,
  eq_iff, ◌==◌, if◌then◌else◌, Bool-cases, inl, inr, ap, ◌∙◌,
}
use hyperfleet_sentinel.Config.{LabelSelector, LabelSelectorList}

unfoldable pub add_selector : Dict String → LabelSelector → Dict String
add_selector result selector =
    if selector.label == "" then result else insert selector.label selector.value result

unfoldable pub add_selectors : Dict String → LabelSelectorList → Dict String
unfolding add_selector
add_selectors result [] = result
add_selectors result (selector ∷ ls) = add_selectors (add_selector result selector) ls

unfoldable pub to_map : LabelSelectorList → Dict String
unfolding add_selectors
to_map ls = add_selectors [] ls

-- The value of the last selector for a label, or else a value given before.
abbrev pub last_value : String → LabelSelectorList → Option String → Option String
last_value k [] before = before
last_value k (selector ∷ ls) before =
    last_value k ls (if selector.label == k then some selector.value else before)

lookup-add_selector :
    (k : String) (result : Dict String) (selector : LabelSelector)
    → (k == "") ≡ false
    → lookup k (add_selector result selector)
      ≡ (if selector.label == k then some selector.value else lookup k result)
unfolding add_selector
lookup-add_selector k result selector h = ground (
  arith,
  lookup-insert selector.label k selector.value result,
  eq_iff selector.label "",
  eq_iff selector.label k,
  eq_iff k "",
)

lookup-add_selectors :
    (k : String) (result : Dict String) (ls : LabelSelectorList)
    → (k == "") ≡ false
    → lookup k (add_selectors result ls) ≡ last_value k ls (lookup k result)
unfolding add_selectors
lookup-add_selectors k result [] h = refl
lookup-add_selectors k result (selector ∷ ls) h =
    lookup-add_selectors k (add_selector result selector) ls h
    ∙ ap (last_value k ls) (lookup-add_selector k result selector h)

lookup-add_selector_empty :
    (result : Dict String) (selector : LabelSelector)
    → lookup "" (add_selector result selector) ≡ lookup "" result
unfolding add_selector
lookup-add_selector_empty result selector =
    ground (arith, lookup-insert selector.label "" selector.value result, eq_iff selector.label "")

lookup-add_selectors_empty :
    (result : Dict String) (ls : LabelSelectorList)
    → lookup "" (add_selectors result ls) ≡ lookup "" result
unfolding add_selectors
lookup-add_selectors_empty result [] = refl
lookup-add_selectors_empty result (selector ∷ ls) =
    lookup-add_selectors_empty (add_selector result selector) ls
    ∙ lookup-add_selector_empty result selector

-- The map has, at each label that is not empty, the value of the last selector for it, and
-- nothing where no selector has that label; the empty label is never a key.
pub lookup-to_map :
    (k : String) (ls : LabelSelectorList)
    → lookup k (to_map ls) ≡ (if k == "" then none else last_value k ls none)
unfolding to_map
lookup-to_map k ls = elim (Bool-cases (k == "")) [
  | inl empty ↦
      rw ((eq_iff k "").0 empty) (lookup-add_selectors_empty [] ls ∙ unfold lookup in refl)
  | inr other ↦ rw other (lookup-add_selectors k [] ls other ∙ unfold lookup in refl)
]
