-- ===== src/Prelude/Dict.antt =====
-- A Go map with text keys, as an association list.
use Prim.Native.String.{String}
use mathlib.Core.Path.{◌≡◌, refl}
use mathlib.Core.Logic.{◌≢◌, inl, inr}
use mathlib.Core.Bool.{false}
use mathlib.Core.Option.{Option, none, some}
use mathlib.Core.List.{List, [], ◌∷◌}
use native.Mathlib.Omega.{arith}
use text.Mathlib.Text.{◌==◌}
use text.Mathlib.TextEquality.{eq_iff}
use aegis_ai_gateway.Prelude.Tests.{if◌then◌else◌, Bool-cases}

module _ {ℓ} {V : Type ℓ} where
  -- `v, ok := m[key]`
  unfoldable pub lookup : String → List (String × V) → Option V
  lookup key [] = none
  lookup key (entry ∷ rest) = if entry.0 == key then some entry.1 else lookup key rest

  -- `m[key] = value`, in the place of the entry it replaces, or at the end.
  unfoldable pub insert : String → V → List (String × V) → List (String × V)
  insert key value [] = (key, value) ∷ []
  insert key value (entry ∷ rest) =
      if entry.0 == key then (key, value) ∷ rest else entry ∷ insert key value rest

  -- A write is seen under its own key alone.
  pub lookup-insert :
      (key other : String) (value : V) (entries : List (String × V))
      → lookup other (insert key value entries)
        ≡ (if key == other then some value else lookup other entries)
  unfolding insert lookup
  lookup-insert key other value [] = refl
  lookup-insert key other value (entry ∷ rest) = ground (
    lookup-insert key other value rest,
    arith,
    eq_iff entry.0 other,
    eq_iff key other,
    eq_iff entry.0 key,
  )

pub str_eq-false : (s t : String) → s ≢ t → (s == t) ≡ false
str_eq-false s t differ = elim (Bool-cases ((s == t))) [
  | inl same ↦ absurd (differ ((eq_iff s t).0 same))
  | inr other ↦ other
]
