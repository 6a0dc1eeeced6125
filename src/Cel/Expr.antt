-- ===== src/Cel/Expr.antt =====
-- The part of the CEL language that the default message decision is written in: its syntax trees,
-- and the text of a tree in the language's concrete syntax.
use hyperfleet_sentinel.Base.{ℕ, suc, String, Bool, true, false, ltb, ◌+++◌, decimal}

pub data Op : Type 0 where
  either both equals differs greater minus : Op

pub data Expr : Type 0 where
  text_literal : String → Expr
  int_literal : ℕ → Expr
  name : String → Expr
  select : Expr → String → Expr
  call : String → Expr → Expr
  negated : Expr → Expr
  apply : Op → Expr → Expr → Expr

abbrev symbol : Op → String
symbol either = "||"
symbol both = "&&"
symbol equals = "=="
symbol differs = "!="
symbol greater = ">"
symbol minus = "-"

-- How tightly an operator binds.
abbrev level_of : Op → ℕ
level_of either = 0
level_of both = 1
level_of minus = 3
level_of _ = 2

abbrev level : Expr → ℕ
level (apply op a b) = level_of op
level (negated a) = 4
level _ = 5

abbrev parenthesized : Bool → String → String
parenthesized true s = "(" +++ s +++ ")"
parenthesized false s = s

-- The operators associate to the left, so a right operand binds more tightly.
unfoldable pub show : Expr → String
show (text_literal s) = "\"" +++ s +++ "\""
show (int_literal n) = decimal n
show (name x) = x
show (select a x) = parenthesized (ltb (level a) 5) (show a) +++ "." +++ x
show (call f a) = f +++ "(" +++ show a +++ ")"
show (negated a) = "!" +++ parenthesized (ltb (level a) 4) (show a)
show (apply op a b) =
    parenthesized (ltb (level a) (level_of op)) (show a)
    +++ " "
    +++ symbol op
    +++ " "
    +++ parenthesized (ltb (level b) (suc (level_of op))) (show b)
