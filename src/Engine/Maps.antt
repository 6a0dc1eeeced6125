-- ===== src/Engine/Maps.antt =====
-- The maps that CEL sees: `buildConditionsLookup`, `zeroCondition`, `resourceToMap`, and the
-- binding of the `condition()` function.
use hyperfleet_sentinel.Base.{
  String, Option, none, some, List, [], ◌∷◌, ◌++◌, Dict, lookup, insert, Host, Value, str, int64,
  object, Fields, end, field, pos,
}
use hyperfleet_sentinel.Client.{Resource, Condition, OwnerReference}

-- `map[string]map[string]interface{}`
abbrev pub Conditions : Type 0
Conditions = Dict Fields

abbrev condition_fields : String → Value → String → String → String → String → Fields
condition_fields status generation updated transition reason message = field "status" (str status) (
    field "observed_generation" generation (
      field "last_updated_time" (str updated) (
        field "last_transition_time" (str transition)
          (field "reason" (str reason) (field "message" (str message) end)))))

abbrev pub zero_condition : Fields
zero_condition = condition_fields "" (int64 (pos 0)) "" "" "" ""

module _ (host : Host) where
  unfoldable pub condition_to_map : Condition → Fields
  condition_to_map c =
      condition_fields c.status (int64 c.observed_generation) (host.format_time c.last_updated_time)
        (host.format_time c.last_transition_time) c.reason c.message

  unfoldable pub add_conditions : Conditions → List Condition → Conditions
  add_conditions result [] = result
  add_conditions result (c ∷ conditions) =
      add_conditions (insert c.type (condition_to_map c) result) conditions

  unfoldable pub build_conditions_lookup : List Condition → Conditions
  unfolding add_conditions
  build_conditions_lookup conditions = add_conditions [] conditions

-- `lookup[name]`, or the zero condition; also for an argument that is no string.
unfoldable pub condition_binding : Conditions → Value → Value
condition_binding conditions (str name) = elim (lookup name conditions) [
  | some cond ↦ object cond
  | none ↦ object zero_condition
]
condition_binding conditions _ = object zero_condition

labels_to_fields : Dict String → Fields
labels_to_fields [] = end
labels_to_fields ((k, v) ∷ labels) = field k (str v) (labels_to_fields labels)

-- `if len(r.Labels) > 0`
label_entries : Dict String → Dict Value
unfolding labels_to_fields
label_entries [] = []
label_entries (entry ∷ labels) = ("labels", object (labels_to_fields (entry ∷ labels))) ∷ []

owner_entries : Option OwnerReference → Dict Value
owner_entries none = []
owner_entries (some owner) =
    (
      "owner_references",
      object (
          field "id" (str owner.id)
            (field "href" (str owner.href) (field "kind" (str owner.kind) end))),
    )
    ∷ []

metadata_entries : Option Fields → Dict Value
metadata_entries none = []
metadata_entries (some metadata) = ("metadata", object metadata) ∷ []

-- The keys are distinct, so setting one adds an entry.
unfoldable pub resource_to_map : Host → Resource → Dict Value
unfolding label_entries owner_entries metadata_entries
resource_to_map host r =
    ("id", str r.id)
    ∷ ("href", str r.href)
    ∷ ("kind", str r.kind)
    ∷ ("created_time", str (host.format_time r.created_time))
    ∷ ("updated_time", str (host.format_time r.updated_time))
    ∷ ("generation", int64 r.generation)
    ∷ (label_entries r.labels ++ (owner_entries r.owner_references ++ metadata_entries r.metadata))
