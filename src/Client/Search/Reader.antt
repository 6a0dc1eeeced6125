-- ===== src/Client/Search/Reader.antt =====
-- A reader of the search parameter, from the syntax that the comment on
-- `labelSelectorToSearchString` gives: terms `labels.key='value'` joined by " and ", where '' in a
-- value stands for one quote. Its lemmas are about the parts of one term.
use Prim.Native.Char.{Char, code}
use text.Mathlib.TextLemmas.{nil-append, cons-append}
use hyperfleet_sentinel.Base.{
  ℕ, zero, suc, String, ◌≡◌, refl, ap, Bool, true, false, inl, inr, Option, none, some, [], ◌∷◌,
  Dict, arith, Bool-cases, eqb, if◌then◌else◌, ◌+++◌, ◌==◌,
}
use hyperfleet_sentinel.Client.Search.{escape_quotes}

infixl 5 ◌>>=◌
abbrev pub ◌>>=◌ {ℓ κ} : {A : Type ℓ} {B : Type κ} → Option A → (A → Option B) → Option B
none >>= k = none
some a >>= k = k a

abbrev pub push : Char → Option (String × String) → Option (String × String)
push c none = none
push c (some (v, rest)) = some (String.◌∷◌ c v, rest)

-- The rest of a literal; the flag says that a quote has been read that may end it.
unfoldable pub read_literal : Bool → String → Option (String × String)
read_literal false String.[] = none
read_literal true String.[] = some ("", "")
read_literal false (String.◌∷◌ c s) =
    let closed = read_literal true s in
    let more = read_literal false s in if eqb (code c) 0x27 then closed else push c more
read_literal true (String.◌∷◌ c s) =
    let more = read_literal false s in
    if eqb (code c) 0x27 then push c more else some ("", String.◌∷◌ c s)

-- The key, up to its `=`.
unfoldable pub read_key : String → Option (String × String)
read_key String.[] = none
read_key (String.◌∷◌ c s) =
    let more = read_key s in if eqb (code c) 0x3d then some ("", s) else push c more

unfoldable pub strip : String → String → Option String
strip String.[] s = some s
strip (String.◌∷◌ c p) String.[] = none
strip (String.◌∷◌ c p) (String.◌∷◌ d s) =
    let more = strip p s in if eqb (code c) (code d) then more else none

unfoldable pub read_term : String → Option ((String × String) × String)
read_term s = do
  named ← strip "labels." s
  keyed ← read_key named
  quoted ← strip "'" keyed.1
  valued ← read_literal false quoted
  some ((keyed.0, valued.0), valued.1)

-- At most so many terms.
unfoldable pub read_query : ℕ → String → Option (Dict String)
unfolding read_term read_literal read_key strip
read_query zero s = none
read_query (suc fuel) s = do
  term ← read_term s
  if term.1 == ""
      then some (term.0 ∷ [])
      else do rest ← strip " and " term.1; more ← read_query fuel rest; some (term.0 ∷ more)

-- A text that does not begin with a quote.
abbrev pub Unquoted : String → Type 0
Unquoted String.[] = Unit
Unquoted (String.◌∷◌ c s) = eqb (code c) 0x27 ≡ false

abbrev pub NoEquals : String → Type 0
NoEquals String.[] = Unit
NoEquals (String.◌∷◌ c s) = (eqb (code c) 0x3d ≡ false) × NoEquals s

pub read_literal-Unquoted :
    (rest : String) → Unquoted rest → read_literal true rest ≡ some ("", rest)
unfolding read_literal
read_literal-Unquoted String.[] h = refl
read_literal-Unquoted (String.◌∷◌ c s) h = rw h

pub read_literal-escape_quotes :
    (v rest : String)
    → Unquoted rest
    → read_literal false (escape_quotes v +++ "'" +++ rest) ≡ some (v, rest)
unfolding escape_quotes read_literal
read_literal-escape_quotes String.[] rest h =
    rw (nil-append, cons-append, nil-append) (read_literal-Unquoted rest h)
read_literal-escape_quotes (String.◌∷◌ c v) rest h = elim (Bool-cases (eqb (code c) 0x27)) [
  | inl quote ↦
      rw (quote, cons-append, cons-append, quote)
        (ap (push c) (read_literal-escape_quotes v rest h))
  | inr plain ↦ rw (plain, cons-append, plain) (ap (push c) (read_literal-escape_quotes v rest h))
]

pub read_key-append : (k s : String) → NoEquals k → read_key (k +++ "=" +++ s) ≡ some (k, s)
unfolding read_key
read_key-append String.[] s h = rw (nil-append, cons-append, nil-append)
read_key-append (String.◌∷◌ c k) s h = rw (cons-append, h.0) (ap (push c) (read_key-append k s h.1))

pub strip-append : (p s : String) → strip p (p +++ s) ≡ some s
unfolding strip
strip-append String.[] s = rw nil-append
strip-append (String.◌∷◌ c p) s = rw cons-append (ground (arith, strip-append p s))
