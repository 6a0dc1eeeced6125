-- ===== src/Payload/Building.antt =====
-- The payload of a compiled definition as a relation, and that `BuildPayload` is this relation.
use hyperfleet_sentinel.Base.{
  String, ◌≡◌, ◌≢◌, ◌↔◌, refl, ◌⊎◌, inl, inr, sym, ap, ◌∙◌, [], Dict, Result, ok, err, Host, Value,
  nil, str, int32, int64, float64, bool, time, items, object, Fields, end, field, Option, none,
  some, Result-cases,
}
use hyperfleet_sentinel.Cel.{Cel}
use hyperfleet_sentinel.Client.{Resource}
use hyperfleet_sentinel.Payload.Tree.{Node, program, children, literal, Nodes, end_nodes, node}
use hyperfleet_sentinel.Payload.{
  keep, object_or_nil, value_or_nil, eval_compiled_map, eval_compiled_node, payload_activation,
  build_payload,
}

module _ {Program : Type 0} (eval : Program → Result String Value) where
  mutual
    -- What a node gives: a value other than nil, or none, by an expression that fails or is nil, by
    -- a literal nil, or by a nested map of which nothing is kept.
    pub data Gives : Node Program → Option Value → Type 0 where
      evaluates :
          {prg : Program} {v : Value} → eval prg ≡ ok v → v ≢ nil → Gives (program prg) (some v)
      is_nil : {prg : Program} → eval prg ≡ ok nil → Gives (program prg) none
      fails : {prg : Program} {e : String} → eval prg ≡ err e → Gives (program prg) none
      is_literal : {v : Value} → v ≢ nil → Gives (literal v) (some v)
      nil_literal : Gives (literal nil) none
      has_values :
          {nodes : Nodes Program} {k : String} {v : Value} {fs : Fields}
          → Builds nodes (field k v fs)
          → Gives (children nodes) (some (object (field k v fs)))
      has_none : {nodes : Nodes Program} → Builds nodes end → Gives (children nodes) none

    -- The entries that give a value, each under its key.
    pub data Builds : Nodes Program → Fields → Type 0 where
      no_nodes : Builds end_nodes end
      keeps :
          {k : String} {n : Node Program} {nodes : Nodes Program} {v : Value} {fs : Fields}
          → Gives n (some v)
          → Builds nodes fs
          → Builds (node k n nodes) (field k v fs)
      leaves_out :
          {k : String} {n : Node Program} {nodes : Nodes Program} {fs : Fields}
          → Gives n none
          → Builds nodes fs
          → Builds (node k n nodes) fs

keep-given : (k : String) (v : Value) (fs : Fields) → v ≢ nil → keep k v fs ≡ field k v fs
keep-given k nil fs h = absurd (h refl)
keep-given k (str s) fs h = refl
keep-given k (int32 s) fs h = refl
keep-given k (int64 s) fs h = refl
keep-given k (float64 s) fs h = refl
keep-given k (bool s) fs h = refl
keep-given k (time s) fs h = refl
keep-given k (items s) fs h = refl
keep-given k (object s) fs h = refl

nil-cases : (v : Value) → (v ≡ nil) ⊎ (v ≢ nil)
nil-cases nil = inl refl
nil-cases (str s) = inr (λ h. cc)
nil-cases (int32 s) = inr (λ h. cc)
nil-cases (int64 s) = inr (λ h. cc)
nil-cases (float64 s) = inr (λ h. cc)
nil-cases (bool s) = inr (λ h. cc)
nil-cases (time s) = inr (λ h. cc)
nil-cases (items s) = inr (λ h. cc)
nil-cases (object s) = inr (λ h. cc)

abbrev or_nil : Option Value → Value
or_nil none = nil
or_nil (some v) = v

module _ (host : Host) (cel : Cel) (activation : Dict Value) where
  abbrev pub run : cel.Program → Result String Value
  run prg = cel.eval prg [] activation

  Gives-given : {n : Node cel.Program} {v : Value} → Gives run n (some v) → v ≢ nil
  Gives-given (evaluates e given) = given
  Gives-given (is_literal given) = given
  Gives-given (has_values b) = λ h. cc

  mutual
    unfolding eval_compiled_node eval_compiled_map

    Gives-value :
        {n : Node cel.Program} {o : Option Value}
        → Gives run n o
        → eval_compiled_node host cel n activation ≡ or_nil o
    Gives-value (evaluates e given) = ap value_or_nil e
    Gives-value (is_nil e) = ap value_or_nil e
    Gives-value (fails e) = ap value_or_nil e
    Gives-value (is_literal given) = refl
    Gives-value nil_literal = refl
    Gives-value (has_values b) = ap object_or_nil (Builds-fields b)
    Gives-value (has_none b) = ap object_or_nil (Builds-fields b)

    Builds-fields :
        {nodes : Nodes cel.Program} {fs : Fields}
        → Builds run nodes fs
        → eval_compiled_map host cel nodes activation ≡ fs
    Builds-fields no_nodes = refl
    Builds-fields (keeps {k} {v = v} {fs = fs} g b) =
        rw (Gives-value g, Builds-fields b) (keep-given k v fs (Gives-given g))
    Builds-fields (leaves_out g b) = rw (Gives-value g, Builds-fields b) refl

  children_give :
      (nodes : Nodes cel.Program) (fs : Fields)
      → Builds run nodes fs
      → (o : Option Value) × Gives run (children nodes) o
  children_give nodes end b = (none, has_none b)
  children_give nodes (field k v fs) b = (_, has_values b)

  entry_added :
      (k : String) (n : Node cel.Program) (nodes : Nodes cel.Program) (fs : Fields)
      (o : Option Value)
      → Gives run n o
      → Builds run nodes fs
      → (gs : Fields) × Builds run (node k n nodes) gs
  entry_added k n nodes fs none g b = (fs, leaves_out g b)
  entry_added k n nodes fs (some v) g b = (field k v fs, keeps g b)

  mutual
    gives : (n : Node cel.Program) → (o : Option Value) × Gives run n o
    gives (program prg) = elim (Result-cases (run prg)) [
      | inr (e, failed) ↦ (none, fails failed)
      | inl (v, evaluated) ↦ elim (nil-cases v) [
        | inl same ↦ (none, is_nil (evaluated ∙ ap ok same))
        | inr given ↦ (some v, evaluates evaluated given)
      ]
    ]
    gives (literal v) = elim (nil-cases v) [
      | inl same ↦ (none, rw same nil_literal)
      | inr given ↦ (some v, is_literal given)
    ]
    gives (children nodes) = let (fs, b) = builds nodes in children_give nodes fs b

    builds : (nodes : Nodes cel.Program) → (fs : Fields) × Builds run nodes fs
    builds end_nodes = (end, no_nodes)
    builds (node k n nodes) =
        let (o, g) = gives n in let (fs, b) = builds nodes in entry_added k n nodes fs o g b

-- A payload is exactly the one that is built of the entries, in the definition's order: an
-- expression that evaluates on the resource and the reason to a value other than nil, and a
-- literal other than nil, is kept with that value, a nested map is kept with what is built of its
-- own entries if that is not empty, and every other entry is left out.
pub build_payload_iff :
    (host : Host) (cel : Cel) (compiled : Nodes cel.Program) (resource : Resource) (reason : String)
    (fs : Fields)
    → (build_payload host cel compiled resource reason ≡ fs)
      ↔ Builds (run host cel (payload_activation host cel resource reason)) compiled fs
unfolding build_payload
build_payload_iff host cel compiled resource reason fs =
    let activation = payload_activation host cel resource reason in
    let (gs, b) = builds host cel activation compiled in
    (
      λ h. rw (sym (Builds-fields host cel activation b) ∙ h) at b,
      λ h. Builds-fields host cel activation h,
    )
