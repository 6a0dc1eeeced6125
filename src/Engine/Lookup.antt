-- ===== src/Engine/Lookup.antt =====
-- What `condition()` finds in the conditions of a resource.
use hyperfleet_sentinel.Base.{
  String, ◌≡◌, refl, ap, ◌∙◌, Bool-cases, inl, inr, Option, none, some, List, [], ◌∷◌, lookup,
  insert, lookup-insert, ◌==◌, if◌then◌else◌, Host, str, object, Fields,
}
use hyperfleet_sentinel.Client.{Condition}
use hyperfleet_sentinel.Engine.Maps.{
  Conditions, zero_condition, condition_to_map, add_conditions, build_conditions_lookup,
  condition_binding,
}

module _ (host : Host) where
  -- The map of the last condition of a type, or what was there before.
  abbrev pub last_condition : String → List Condition → Fields → Fields
  last_condition name [] before = before
  last_condition name (c ∷ conditions) before =
      last_condition name conditions (if c.type == name then condition_to_map host c else before)

abbrev found : Option Fields → Fields
found (some cond) = cond
found none = zero_condition

found-insert :
    (name type : String) (cond : Fields) (result : Conditions)
    → found (lookup name (insert type cond result))
      ≡ (if type == name then cond else found (lookup name result))
found-insert name type cond result =
    rw (lookup-insert type name cond result)
      (elim (Bool-cases (type == name)) [ inl same ↦ rw same | inr other ↦ rw other ])

object_found :
    (o : Option Fields)
    → (elim o [ some cond ↦ object cond | none ↦ object zero_condition ]) ≡ object (found o)
object_found none = refl
object_found (some cond) = refl

found_empty : (name : String) → found (lookup name []) ≡ zero_condition
unfolding lookup
found_empty name = refl

module _ (host : Host) where
  found-add_conditions :
      (name : String) (result : Conditions) (conditions : List Condition)
      → found (lookup name (add_conditions host result conditions))
        ≡ last_condition host name conditions (found (lookup name result))
  unfolding add_conditions
  found-add_conditions name result [] = refl
  found-add_conditions name result (c ∷ conditions) =
      found-add_conditions name (insert c.type (condition_to_map host c) result) conditions
      ∙ ap (last_condition host name conditions)
          (found-insert name c.type (condition_to_map host c) result)

  -- For a string, condition() is the map of the last condition of that type in the resource's
  -- status, and the zero condition when the status has none of that type.
  pub condition_binding-build_conditions_lookup :
      (name : String) (conditions : List Condition)
      → condition_binding (build_conditions_lookup host conditions) (str name)
        ≡ object (last_condition host name conditions zero_condition)
  unfolding condition_binding build_conditions_lookup
  condition_binding-build_conditions_lookup name conditions =
      object_found (lookup name (add_conditions host [] conditions))
      ∙ ap object (
          found-add_conditions name [] conditions
          ∙ ap (last_condition host name conditions) (found_empty name))
