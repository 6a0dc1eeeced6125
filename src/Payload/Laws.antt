-- ===== src/Payload/Laws.antt =====
-- Which definitions compile: `NewBuilder`.
use hyperfleet_sentinel.Base.{
  String, ◌≡◌, ◌≢◌, ◌↔◌, refl, List, [], ◌∷◌, ok, map_err, map_err-eq-ok_iff, ◌>>=◌, >>=-eq-ok,
  Host, Value, nil, str, int32, int64, float64, bool, time, items, object, Fields, end, field,
  err≢ok, Bool-cases, inl, inr, ◌==◌, ◌+++◌, eq_iff,
}
use hyperfleet_sentinel.Cel.{Cel}
use hyperfleet_sentinel.Config.Leaves.{At, here, inside, later}
use hyperfleet_sentinel.Payload.Tree.{Node, program, children, literal, Nodes, end_nodes, node}
use hyperfleet_sentinel.Payload.{
  payload_env, compile_expression, compile_node, compile_map, new_builder,
}

module _ (host : Host) (cel : Cel) where
  open cel use {Program, new_env, compile}

  -- A value that compiles: a text that is not empty and is a CEL program, a map, a number or a
  -- boolean; not nil, a list or a time.
  abbrev pub Compiles : Value → Type 0
  Compiles nil = ⊥
  Compiles (str s) =
      (s ≢ "")
      × ((ast : cel.Ast) × (prg : Program) × (compile payload_env s ≡ ok ast)
          × (cel.program payload_env ast ≡ ok prg))
  Compiles (time t) = ⊥
  Compiles (items l) = ⊥
  Compiles _ = Unit

  abbrev pub AllCompile : Fields → Type 0
  AllCompile def = (path : List String) (v : Value) → At def path v → Compiles v

  compile_expression-eq-ok :
      (s : String) (n : Node Program)
      → compile_expression host cel s ≡ ok n
      → (ast : cel.Ast) × (prg : Program) × (compile payload_env s ≡ ok ast)
        × (cel.program payload_env ast ≡ ok prg)
  unfolding compile_expression
  compile_expression-eq-ok s n h =
      let (ast, parsed, rest) = >>=-eq-ok _ _ h in
      let (prg, planned, _) = >>=-eq-ok _ _ rest in
      (ast, prg, (map_err-eq-ok_iff _ _ ast).0 parsed, (map_err-eq-ok_iff _ _ prg).0 planned)

  compile_expression_ok :
      (s : String) (ast : cel.Ast) (prg : Program)
      → compile payload_env s ≡ ok ast
      → cel.program payload_env ast ≡ ok prg
      → compile_expression host cel s ≡ ok (program prg)
  unfolding compile_expression
  compile_expression_ok s ast prg h k = rw (h, k)

  text-Compiles :
      (s : String) (n : Node Program) → compile_node host cel (str s) ≡ ok n → Compiles (str s)
  unfolding compile_node
  text-Compiles s n h = elim (Bool-cases (s == "")) [
    | inl empty ↦ absurd (err≢ok (rw empty at h))
    | inr given ↦ (λ e. cc ((eq_iff s "").1 e), compile_expression-eq-ok s n (rw given at h))
  ]

  Compiles-text :
      (s : String) → Compiles (str s) → (n : Node Program) × (compile_node host cel (str s) ≡ ok n)
  unfolding compile_node
  Compiles-text s (given, (ast, prg, parsed, planned)) = elim (Bool-cases (s == "")) [
    | inl empty ↦ absurd (given ((eq_iff s "").0 empty))
    | inr other ↦ (program prg, rw other (compile_expression_ok s ast prg parsed planned))
  ]

  -- A compiled map compiled its first entry and the rest.
  compile_map-field :
      (k : String) (v : Value) (fs : Fields) (t : Nodes Program)
      → compile_map host cel (field k v fs) ≡ ok t
      → (n : Node Program) × (rest : Nodes Program) × (compile_node host cel v ≡ ok n)
        × (compile_map host cel fs ≡ ok rest)
  unfolding compile_map
  compile_map-field k v fs t h =
      let (n, first, others) = >>=-eq-ok _ _ h in
      let (rest, second, _) = >>=-eq-ok _ _ others in
      (n, rest, (map_err-eq-ok_iff _ _ n).0 first, second)

  compile_node-object :
      (fs : Fields) (n : Node Program)
      → compile_node host cel (object fs) ≡ ok n
      → (t : Nodes Program) × (compile_map host cel fs ≡ ok t)
  unfolding compile_node
  compile_node-object fs n h = let (t, compiled, _) = >>=-eq-ok _ _ h in (t, compiled)

  ok-Compiles : (v : Value) (n : Node Program) → compile_node host cel v ≡ ok n → Compiles v
  unfolding compile_node
  ok-Compiles nil n h = absurd (err≢ok h)
  ok-Compiles (str s) n h = text-Compiles s n h
  ok-Compiles (time t) n h = absurd (err≢ok h)
  ok-Compiles (items l) n h = absurd (err≢ok h)
  ok-Compiles _ n h = tt

  compile_map_sound :
      {fs : Fields} {path : List String} {v : Value} (t : Nodes Program)
      → At fs path v
      → compile_map host cel fs ≡ ok t
      → Compiles v
  compile_map_sound t (here {k} {v} {fs}) h =
      let (n, rest, first, _) = compile_map-field k v fs t h in ok-Compiles v n first
  compile_map_sound t (inside {k} {inner} {fs} a) h =
      let (n, rest, first, _) = compile_map-field k (object inner) fs t h in
      let (u, compiled) = compile_node-object inner n first in compile_map_sound u a compiled
  compile_map_sound t (later {k} {w} {fs} a) h =
      let (n, rest, _, second) = compile_map-field k w fs t h in compile_map_sound rest a second

  compile_map_step :
      (k : String) (v : Value) (fs : Fields)
      → compile_map host cel (field k v fs) ≡ (
          map_err (λ e. "key " +++ host.quote k +++ ": " +++ e) (compile_node host cel v) >>= λ n.
          compile_map host cel fs >>= λ rest. ok (node k n rest))
  unfolding compile_map
  compile_map_step k v fs = refl

  compile_object_step :
      (fs : Fields)
      → compile_node host cel (object fs) ≡ (compile_map host cel fs >>= λ t. ok (children t))
  unfolding compile_node
  compile_object_step fs = refl

  field_ok :
      (k : String) (v : Value) (fs : Fields) (n : Node Program) (rest : Nodes Program)
      → compile_node host cel v ≡ ok n
      → compile_map host cel fs ≡ ok rest
      → compile_map host cel (field k v fs) ≡ ok (node k n rest)
  field_ok k v fs n rest first second = rw (compile_map_step k v fs, first, second)

  -- Numbers and booleans compile to literals.
  abbrev IsLiteral : Value → Type 0
  IsLiteral (int32 i) = Unit
  IsLiteral (int64 i) = Unit
  IsLiteral (float64 i) = Unit
  IsLiteral (bool b) = Unit
  IsLiteral _ = ⊥

  literal_ok : (v : Value) → IsLiteral v → (n : Node Program) × (compile_node host cel v ≡ ok n)
  unfolding compile_node
  literal_ok (int32 i) l = (literal (int32 i), refl)
  literal_ok (int64 i) l = (literal (int64 i), refl)
  literal_ok (float64 i) l = (literal (float64 i), refl)
  literal_ok (bool b) l = (literal (bool b), refl)
  literal_ok _ l = absurd l

  end_ok : compile_map host cel end ≡ ok end_nodes
  unfolding compile_map
  end_ok = refl

  mutual
    node-Compiles :
        (v : Value)
        → Compiles v
        → ((inner : Fields) → v ≡ object inner → AllCompile inner)
        → (n : Node Program) × (compile_node host cel v ≡ ok n)
    node-Compiles nil c below = absurd c
    node-Compiles (str s) c below = Compiles-text s c
    node-Compiles (int32 i) c below = literal_ok (int32 i) tt
    node-Compiles (int64 i) c below = literal_ok (int64 i) tt
    node-Compiles (float64 i) c below = literal_ok (float64 i) tt
    node-Compiles (bool i) c below = literal_ok (bool i) tt
    node-Compiles (time t) c below = absurd c
    node-Compiles (items l) c below = absurd c
    node-Compiles (object inner) c below =
        let (t, compiled) = map-Compiles inner (below inner refl) in
        (children t, rw (compile_object_step inner, compiled))

    map-Compiles :
        (fs : Fields) → AllCompile fs → (t : Nodes Program) × (compile_map host cel fs ≡ ok t)
    map-Compiles end all = (end_nodes, end_ok)
    map-Compiles (field k v fs) all =
        let (n, first) =
          node-Compiles v (all (k ∷ []) v here)
            (λ inner e path w a. all (k ∷ path) w (rw e (inside a))) in
        let (rest, second) = map-Compiles fs (λ path w a. all path w (later a)) in
        (node k n rest, field_ok k v fs n rest first second)

  -- A builder is created exactly when the CEL environment is, and every value of the definition,
  -- at any depth of nested maps, compiles: each text is a CEL program and not empty, and no value
  -- is nil, a list or a time.
  pub new_builder-eq-ok_iff :
      (def : Fields)
      → ((compiled : Nodes Program) × (new_builder host cel (object def) ≡ ok compiled))
        ↔ ((new_env payload_env ≡ ok tt) × AllCompile def)
  unfolding new_builder
  new_builder-eq-ok_iff def = (
    λ h.
        let (_, env, rest) = >>=-eq-ok _ _ (h.1) in
        (
          (map_err-eq-ok_iff _ _ tt).0 env,
          λ path v a. compile_map_sound h.0 a ((map_err-eq-ok_iff _ _ _).0 rest),
        ),
    λ h. let (t, compiled) = map-Compiles def h.1 in (t, rw (h.0, compiled)),
  )
