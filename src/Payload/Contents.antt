-- ===== src/Payload/Contents.antt =====
-- What a payload holds: `BuildPayload` on a compiled definition.
use hyperfleet_sentinel.Base.{
  String, ◌≡◌, ◌≢◌, refl, sym, ap, ◌∙◌, List, [], ◌∷◌, Dict, ok, Host, Value, nil, str, int32,
  int64, float64, bool, time, items, object, Fields, end, field,
}
use hyperfleet_sentinel.Cel.{Cel}
use hyperfleet_sentinel.Client.{Resource}
use hyperfleet_sentinel.Config.Leaves.{At, here, inside, later}
use hyperfleet_sentinel.Payload.Tree.{Node, program, children, literal, Nodes, node}
use hyperfleet_sentinel.Payload.{
  keep, object_or_nil, value_or_nil, eval_compiled_map, eval_compiled_node, payload_activation,
  build_payload,
}

-- The programs and literals of a compiled definition, each at its path of keys.
pub data LeafAt {P : Type 0} : Nodes P → List String → Node P → Type 0 where
  leaf_program :
      {k : String} {prg : P} {rest : Nodes P}
      → LeafAt (node k (program prg) rest) (k ∷ []) (program prg)
  leaf_literal :
      {k : String} {v : Value} {rest : Nodes P}
      → LeafAt (node k (literal v) rest) (k ∷ []) (literal v)
  leaf_inside :
      {k : String} {nodes rest : Nodes P} {path : List String} {n : Node P}
      → LeafAt nodes path n
      → LeafAt (node k (children nodes) rest) (k ∷ path) n
  leaf_later :
      {k : String} {m : Node P} {rest : Nodes P} {path : List String} {n : Node P}
      → LeafAt rest path n
      → LeafAt (node k m rest) path n

At-end : {path : List String} {v : Value} → At end path v → ⊥
At-end a = elim a [ ]

keep_here : (k : String) (v : Value) (fs : Fields) → v ≢ nil → At (keep k v fs) (k ∷ []) v
keep_here k nil fs h = absurd (h refl)
keep_here k (str s) fs h = here
keep_here k (int32 s) fs h = here
keep_here k (int64 s) fs h = here
keep_here k (float64 s) fs h = here
keep_here k (bool s) fs h = here
keep_here k (time s) fs h = here
keep_here k (items s) fs h = here
keep_here k (object s) fs h = here

keep_later :
    (k : String) (w : Value) {fs : Fields} {path : List String} {v : Value}
    → At fs path v
    → At (keep k w fs) path v
keep_later k nil h = h
keep_later k (str s) h = later h
keep_later k (int32 s) h = later h
keep_later k (int64 s) h = later h
keep_later k (float64 s) h = later h
keep_later k (bool s) h = later h
keep_later k (time s) h = later h
keep_later k (items s) h = later h
keep_later k (object s) h = later h

keep_inside :
    (k : String) (nested fs : Fields) {path : List String} {v : Value}
    → At nested path v
    → At (keep k (object_or_nil nested) fs) (k ∷ path) v
keep_inside k end fs h = absurd (At-end h)
keep_inside k (field j w rest) fs h = inside h

module _ (host : Host) (cel : Cel) where
  open cel use {Program, eval}

  leaves_hold :
      (activation : Dict Value) {nodes : Nodes Program} {path : List String} {n : Node Program}
      → LeafAt nodes path n
      → (eval_compiled_node host cel n activation ≢ nil)
      → At
          (eval_compiled_map host cel nodes activation)
          path
          (eval_compiled_node host cel n activation)
  unfolding eval_compiled_map eval_compiled_node
  leaves_hold activation (leaf_program {k} {prg}) given = keep_here k _ _ given
  leaves_hold activation (leaf_literal {k} {v}) given = keep_here k _ _ given
  leaves_hold activation (leaf_inside {k} {nodes} h) given =
      keep_inside k (eval_compiled_map host cel nodes activation) _ (leaves_hold activation h given)
  leaves_hold activation (leaf_later {k} {m} h) given =
      keep_later k (eval_compiled_node host cel m activation) (leaves_hold activation h given)

  -- Every expression of the definition, at any depth of nested maps, that evaluates on the
  -- resource and the reason to a value other than nil is in the payload at its path with that
  -- value, whatever the other expressions do.
  pub build_payload_lem :
      {compiled : Nodes Program} {path : List String} {prg : Program} (resource : Resource)
      (reason : String) (v : Value)
      → LeafAt compiled path (program prg)
      → eval prg [] (payload_activation host cel resource reason) ≡ ok v
      → v ≢ nil
      → At (build_payload host cel compiled resource reason) path v
  unfolding build_payload eval_compiled_node
  build_payload_lem resource reason v leaf evaluated given = rw (sym (ap value_or_nil evaluated)) (
      leaves_hold (payload_activation host cel resource reason) leaf
        (λ e. given (sym (ap value_or_nil evaluated) ∙ e)))
