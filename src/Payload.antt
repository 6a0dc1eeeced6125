-- ===== src/Payload.antt =====
-- internal/payload/builder.go: event payloads from a definition that is compiled once.
pub mod Maps
pub mod Tree
pub mod Laws
pub mod Contents
pub mod Building
use hyperfleet_sentinel.Base.{
  String, ◌≡◌, Bool, true, false, Option, none, some, List, [], ◌∷◌, Dict, Result, ok, err, map_err,
  ◌>>=◌, ◌>>◌, ◌==◌, if◌then◌else◌, ◌+++◌, Host, Value, nil, str, int32, int64, float64, bool, time,
  items, object, Fields, end, field, of_dict,
}
use hyperfleet_sentinel.Cel.{Cel, Env}
use hyperfleet_sentinel.Client.{Resource}
use hyperfleet_sentinel.Payload.Maps.{resource_to_map}
use hyperfleet_sentinel.Payload.Tree.{Node, program, children, literal, Nodes, end_nodes, node}

-- What a raw value means; `children` is `none` for the nil map.
pub record ValueDef : Type 0 where
  pub literal : Value
  pub children : Option Fields
  pub expression : String
  pub expression_set : Bool

abbrev literal_def : Value → ValueDef
literal_def v = record { literal = v; children = none; expression = ""; expression_set = false }

-- The error of a value of another type is the host's name of it.
unfoldable pub parse_value_def : Host → Value → Result String ValueDef
parse_value_def host (str v) =
    ok (record { literal = nil; children = none; expression = v; expression_set = true })
parse_value_def host (int32 v) = ok (literal_def (int32 v))
parse_value_def host (int64 v) = ok (literal_def (int64 v))
parse_value_def host (float64 v) = ok (literal_def (float64 v))
parse_value_def host (bool v) = ok (literal_def (bool v))
parse_value_def host nil =
    err "ParseValueDef: nil is not a valid value; every leaf must be a CEL expression string"
parse_value_def host (object v) =
    ok (record { literal = nil; children = some v; expression = ""; expression_set = false })
parse_value_def host (time v) = err ("unsupported value type " +++ host.type_name (time v))
parse_value_def host (items v) = err ("unsupported value type " +++ host.type_name (items v))

-- newCELEnv
abbrev pub payload_env : Env
payload_env = record { variables = "resource" ∷ "reason" ∷ []; functions = [] }

abbrev pub value_or_nil : Result String Value → Value
value_or_nil (err e) = nil
value_or_nil (ok out) = out

-- `len(nested) == 0`
abbrev pub object_or_nil : Fields → Value
object_or_nil end = nil
object_or_nil (field k v fs) = object (field k v fs)

-- `if val != nil { result[key] = val }`
abbrev pub keep : String → Value → Fields → Fields
keep key nil result = result
keep key val result = field key val result

module _ (host : Host) (cel : Cel) where
  open cel use {Program, new_env, compile, eval}

  compile_expression : String → Result String (Node Program)
  compile_expression expression = do
    ast ←
        map_err (λ e. "CEL expression " +++ host.quote expression +++ ": " +++ e)
          (compile payload_env expression)
    prg ←
        map_err (λ e. "CEL program for " +++ host.quote expression +++ ": " +++ e)
          (cel.program payload_env ast)
    ok (program prg)

  -- The switch of `compileNode`, given what compiling the children returns, if there are any.
  compile_def : Result String (Nodes Program) → ValueDef → Result String (Node Program)
  unfolding compile_expression
  compile_def compiled_children vd = elim vd.children [
    | some def ↦ (do compiled ← compiled_children; ok (children compiled))
    | none ↦
        if vd.expression_set
        then (if vd.expression == ""
            then err (
                "compileNode: ParseValueDef returned an empty expression (vd.Expression="
                +++ host.quote vd.expression
                +++ "); a compiledNode cannot be created from an empty CEL expression")
            else compile_expression vd.expression)
        else if vd.expression == ""
        then ok (literal vd.literal)
        else compile_expression vd.expression
  ]

  mutual
    unfolding compile_def parse_value_def

    compile_node : Value → Result String (Node Program)
    compile_node (object v) = do
      vd ← parse_value_def host (object v)
      compile_def (compile_map v) vd
    compile_node raw = do vd ← parse_value_def host raw; compile_def (ok end_nodes) vd

    compile_map : Fields → Result String (Nodes Program)
    compile_map end = ok end_nodes
    compile_map (field key raw_val def) = do
      compiled ← map_err (λ e. "key " +++ host.quote key +++ ": " +++ e) (compile_node raw_val)
      rest ← compile_map def
      ok (node key compiled rest)

  unfoldable pub new_builder : Value → Result String (Nodes Program)
  unfolding compile_map
  new_builder (object build_def) = do
    map_err (λ e. "failed to create CEL environment: " +++ e) (new_env payload_env)
    map_err (λ e. "failed to compile build definition: " +++ e) (compile_map build_def)
  new_builder build_def = err ("build definition must be a map, got " +++ host.type_name build_def)

  unfoldable mutual
    pub eval_compiled_map : Nodes Program → Dict Value → Fields
    eval_compiled_map end_nodes activation = end
    eval_compiled_map (node key n nodes) activation =
        keep key (eval_compiled_node n activation) (eval_compiled_map nodes activation)

    pub eval_compiled_node : Node Program → Dict Value → Value
    eval_compiled_node (children nodes) activation =
        object_or_nil (eval_compiled_map nodes activation)
    eval_compiled_node (program prg) activation = value_or_nil (eval prg [] activation)
    eval_compiled_node (literal v) activation = v

  abbrev pub payload_activation : Resource → String → Dict Value
  payload_activation resource reason =
      ("resource", object (of_dict (resource_to_map host resource))) ∷ ("reason", str reason) ∷ []

  unfoldable pub build_payload : Nodes Program → Resource → String → Fields
  unfolding eval_compiled_map
  build_payload compiled resource reason =
      eval_compiled_map compiled (payload_activation resource reason)
