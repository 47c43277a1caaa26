-- ===== src/Base/Dict.antt =====
-- Go maps with text keys, as association lists. The order of the entries stands for the order in
-- which `range` would visit them, which Go leaves open.
use Prim.Native.String.{String}
use mathlib.Core.Path.{◌≡◌, refl}
use mathlib.Core.Logic.{◌≢◌, inl, inr}
use mathlib.Core.List.{List, [], ◌∷◌, map}
use mathlib.Core.Option.{Option, none, some}
use native.Mathlib.Omega.{arith}
use text.Mathlib.Text.{◌==◌}
use text.Mathlib.TextEquality.{eq_iff}
use valtrack.Base.Tests.{if◌then◌else◌, Bool-cases}
use valtrack.Base.Lists.{In}

module _ {V : Type 0} where
  -- `m[k]`
  unfoldable pub lookup : String → List (String × V) → Option V
  lookup key [] = none
  lookup key ((other, value) ∷ entries) = if other == key then some value else lookup key entries

  -- `m[k] = v`
  unfoldable pub insert : String → V → List (String × V) → List (String × V)
  insert key value [] = (key, value) ∷ []
  insert key value ((other, held) ∷ entries) =
      if other == key then (key, value) ∷ entries else (other, held) ∷ insert key value entries

  abbrev pub keys : List (String × V) → List String
  keys = map λ e. e.0

  -- No key stands twice.
  abbrev pub Distinct : List (String × V) → Type 0
  Distinct [] = Unit
  Distinct ((key, value) ∷ entries) = (lookup key entries ≡ none) × Distinct entries

  pub lookup-insert :
      (key other : String) (value : V) (entries : List (String × V))
      → lookup other (insert key value entries)
        ≡ (if key == other then some value else lookup other entries)
  unfolding lookup insert
  lookup-insert key other value [] = refl
  lookup-insert key other value ((first, held) ∷ entries) =
      let rest = lookup-insert key other value entries in
      ground (eq_iff first other, eq_iff first key, eq_iff key other, arith)

  pub lookup-insert_self :
      (key : String) (value : V) (entries : List (String × V))
      → lookup key (insert key value entries) ≡ some value
  lookup-insert_self key value entries =
      ground (arith, lookup-insert key key value entries, eq_iff key key)

  pub lookup-insert_ne :
      (key other : String) (value : V) (entries : List (String × V))
      → key ≢ other
      → lookup other (insert key value entries) ≡ lookup other entries
  lookup-insert_ne key other value entries h =
      ground (arith, lookup-insert key other value entries, eq_iff key other)

  pub insert-Distinct :
      (key : String) (value : V) (entries : List (String × V))
      → Distinct entries
      → Distinct (insert key value entries)
  unfolding insert lookup
  insert-Distinct key value [] d = (refl, tt)
  insert-Distinct key value ((other, held) ∷ entries) d = ground (
    arith,
    eq_iff other key,
    eq_iff key other,
    lookup-insert key other value entries,
    insert-Distinct key value entries d.1,
  )

  pub In-lookup :
      (key : String) (value : V) (entries : List (String × V))
      → Distinct entries
      → In (key, value) entries
      → lookup key entries ≡ some value
  unfolding lookup
  In-lookup key value [] d h = absurd h
  In-lookup key value ((other, held) ∷ entries) d (inl e) = ground (arith, eq_iff other key)
  In-lookup key value ((other, held) ∷ entries) d (inr h) =
      ground (arith, eq_iff other key, In-lookup key value entries d.1 h)

  pub lookup-In :
      (key : String) (value : V) (entries : List (String × V))
      → lookup key entries ≡ some value
      → In (key, value) entries
  unfolding lookup
  lookup-In key value [] h = cc
  lookup-In key value ((other, held) ∷ entries) h = elim (Bool-cases (other == key)) [
    | inl e ↦ inl (ground (arith, eq_iff other key))
    | inr e ↦ inr (lookup-In key value entries (ground arith))
  ]
