-- ===== src/Cel.antt =====
-- The CEL library (google/cel-go), as the engine and the payload builder use it: a parameter. A
-- program is compiled from a text under the declared variables and functions, and evaluated on an
-- activation with the functions' bindings. A successful evaluation is represented by its
-- `out.Value()`: the library returns a value that is not nil whenever it returns no error.
pub mod Expr
pub mod Meaning
use hyperfleet_sentinel.Base.{String, Value, Dict, Result, List}

-- The names that an environment declares.
pub record Env : Type 0 where
  pub variables : List String
  pub functions : List String

pub record Cel : Type 1 where
  pub Ast : Type 0
  pub Program : Type 0
  pub new_env : Env → Result String (Unit {0})
  pub compile : Env → String → Result String Ast
  pub program : Env → Ast → Result String Program
  pub eval : Program → Dict (Value → Value) → Dict Value → Result String Value
