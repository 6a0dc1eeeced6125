-- ===== src/Payload/Maps.antt =====
-- The resource as CEL sees it in a payload: `resourceToMap` of the builder.
use hyperfleet_sentinel.Base.{
  String, List, [], ◌∷◌, ◌++◌, Option, none, some, Dict, Host, Value, str, int32, object, items,
  Items, done, item, Fields, end, field, of_dict, ◌==◌, if◌then◌else◌,
}
use hyperfleet_sentinel.Client.{Resource, Condition, OwnerReference}

-- An optional text field: set only if it is not empty.
abbrev text_entry : String → String → Dict Value
text_entry key value = if value == "" then [] else (key, str value) ∷ []

condition_entries : Host → Condition → Dict Value
condition_entries host c =
    ("type", str c.type)
    ∷ ("status", str c.status)
    ∷ ("last_transition_time", str (host.format_time c.last_transition_time))
    ∷ ("last_updated_time", str (host.format_time c.last_updated_time))
    ∷ ("observed_generation", int32 c.observed_generation)
    ∷ (text_entry "reason" c.reason ++ text_entry "message" c.message)

condition_items : Host → List Condition → Items
unfolding condition_entries
condition_items host [] = done
condition_items host (c ∷ conditions) =
    item (object (of_dict (condition_entries host c))) (condition_items host conditions)

-- `if len(r.Status.Conditions) > 0`
status_to_map : Host → List Condition → Fields
unfolding condition_items
status_to_map host [] = end
status_to_map host (c ∷ conditions) =
    field "conditions" (items (condition_items host (c ∷ conditions))) end

labels_to_fields : Dict String → Fields
labels_to_fields [] = end
labels_to_fields ((k, v) ∷ labels) = field k (str v) (labels_to_fields labels)

label_entries : Dict String → Dict Value
unfolding labels_to_fields
label_entries [] = []
label_entries (entry ∷ labels) = ("labels", object (labels_to_fields (entry ∷ labels))) ∷ []

owner_entries : Option OwnerReference → Dict Value
owner_entries none = []
owner_entries (some owner) =
    (
      "owner_references",
      object (
          field "id" (str owner.id)
            (field "href" (str owner.href) (field "kind" (str owner.kind) end))),
    )
    ∷ []

metadata_entries : Option Fields → Dict Value
metadata_entries none = []
metadata_entries (some metadata) = ("metadata", object metadata) ∷ []

unfoldable pub resource_to_map : Host → Resource → Dict Value
unfolding status_to_map label_entries owner_entries metadata_entries
resource_to_map host r =
    ("id", str r.id)
    ∷ ("href", str r.href)
    ∷ ("kind", str r.kind)
    ∷ ("created_time", str (host.format_time r.created_time))
    ∷ ("updated_time", str (host.format_time r.updated_time))
    ∷ ("generation", int32 r.generation)
    ∷ ("status", object (status_to_map host r.status.conditions))
    ∷ (label_entries r.labels ++ (owner_entries r.owner_references ++ metadata_entries r.metadata))
