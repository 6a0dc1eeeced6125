-- ===== src/Base/Maps.antt =====
-- Go maps with string keys, as association lists: the order of the entries is one order in which
-- `range` may visit them. `insert` is `m[k] = v`, `merge` the loop that copies one map over another.
use Prim.Native.String.{String}
use mathlib.Core.Path.{◌≡◌, refl}
use mathlib.Core.Option.{Option, none, some}
use mathlib.Core.List.{List, [], ◌∷◌}
use native.Mathlib.Omega.{arith}
use text.Mathlib.Text.{◌==◌}
use text.Mathlib.TextEquality.{eq_iff}
use hyperfleet_sentinel.Base.Tests.{if◌then◌else◌}

abbrev pub Dict {ℓ} : Type ℓ → Type ℓ
Dict V = List (String × V)

module _ {ℓ} {V : Type ℓ} where
  unfoldable pub lookup : String → Dict V → Option V
  lookup name [] = none
  lookup name (entry ∷ entries) = if entry.0 == name then some entry.1 else lookup name entries

  -- The entry of a key that is there keeps its place.
  unfoldable pub insert : String → V → Dict V → Dict V
  insert name value [] = (name, value) ∷ []
  insert name value (entry ∷ entries) =
      let rest = insert name value entries in
      if entry.0 == name then (name, value) ∷ entries else entry ∷ rest

  pub lookup-insert :
      (name asked : String) (value : V) (entries : Dict V)
      → lookup asked (insert name value entries)
        ≡ (if name == asked then some value else lookup asked entries)
  unfolding lookup insert
  lookup-insert name asked value [] = refl
  lookup-insert name asked value (entry ∷ entries) = ground (
    arith,
    lookup-insert name asked value entries,
    eq_iff entry.0 asked,
    eq_iff name asked,
    eq_iff entry.0 name,
  )

  -- `for k, v := range over { base[k] = v }`
  unfoldable pub merge : Dict V → Dict V → Dict V
  merge base [] = base
  merge base ((k, v) ∷ over) = merge (insert k v base) over

  -- A key that the second map lacks keeps its value.
  pub lookup-merge :
      (base over : Dict V) (j : String)
      → lookup j over ≡ none
      → lookup j (merge base over) ≡ lookup j base
  unfolding lookup merge
  lookup-merge base [] j h = refl
  lookup-merge base ((k, v) ∷ over) j h =
      ground (arith, lookup-merge (insert k v base) over j, lookup-insert k j v base, eq_iff k j)
