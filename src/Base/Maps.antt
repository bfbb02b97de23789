-- ===== src/Base/Maps.antt =====
-- Go's `map[string]V` as an association list; the first entry of a key counts.
use Prim.Native.String.{String}
use mathlib.Core.Path.{◌≡◌}
use mathlib.Core.Logic.{◌≢◌}
use mathlib.Core.Bool.{false}
use mathlib.Core.Option.{Option, none, some}
use mathlib.Core.List.{List, [], ◌∷◌}
use native.Mathlib.Omega.{arith}
use text.Mathlib.Text.{◌==◌}
use text.Mathlib.TextEquality.{eq_iff}
use text.Mathlib.TextPositions.{eq_refl}
use kausality.Base.Tests.{if◌then◌else◌}

abbrev pub Dict {ℓ} : Type ℓ → Type ℓ
Dict V = List (String × V)

module _ {ℓ} {V : Type ℓ} where
  unfoldable pub lookup : String → Dict V → Option V
  lookup key [] = none
  lookup key (e ∷ entries) = if key == e.0 then some e.1 else lookup key entries

  -- `m[key] = value`: the entry keeps its place, a new one goes to the end.
  unfoldable pub insert : String → V → Dict V → Dict V
  insert key value [] = (key, value) ∷ []
  insert key value (e ∷ entries) =
      let later : Dict V = insert key value entries in
      if key == e.0 then (key, value) ∷ entries else e ∷ later

  -- `delete(m, key)`
  unfoldable pub delete : String → Dict V → Dict V
  delete key [] = []
  delete key (e ∷ entries) =
      let later : Dict V = delete key entries in if key == e.0 then later else e ∷ later

  pub lookup-delete :
      (key other : String) (entries : Dict V)
      → lookup other (delete key entries) ≡ (if key == other then none else lookup other entries)
  unfolding lookup delete
  lookup-delete key other [] = ground arith
  lookup-delete key other (e ∷ entries) =
      ground
        (arith, eq_iff key e.0, eq_iff key other, eq_iff other e.0, lookup-delete key other entries)

  pub lookup-insert :
      (key other : String) (value : V) (entries : Dict V)
      → lookup other (insert key value entries)
        ≡ (if key == other then some value else lookup other entries)
  unfolding lookup insert
  lookup-insert key other value [] = ground (arith, eq_iff key other, eq_iff other key)
  lookup-insert key other value (e ∷ entries) = ground (
    arith,
    eq_iff key e.0,
    eq_iff other key,
    eq_iff key other,
    eq_iff other e.0,
    lookup-insert key other value entries,
  )

  pub lookup-insert_self :
      (key : String) (value : V) (entries : Dict V)
      → lookup key (insert key value entries) ≡ some value
  lookup-insert_self key value entries = simp (lookup-insert, eq_refl)

pub ne→eq-false : (k j : String) → k ≢ j → (k == j) ≡ false
ne→eq-false k j h = ground (arith, eq_iff k j)
