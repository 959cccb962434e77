-- ===== src/Prelude.antt =====
-- The names that the other modules share: the libraries', passed on, and those of the children.
mod Tests
mod Lists
mod Dict
mod Int
mod Texts
mod Results
mod Float
pub use Tests.*
pub use Lists.*
unfoldable pub use Dict.{lookup, insert}
pub use Dict.{lookup-insert, str_eq-false}
pub use Int.*
pub use Texts.{
  rune_width, rune_count, byte_length, rune_count-le-byte_length, nil-append, cons-append,
  byte_length-append, take_bytes-append, take_bytes-within, trim_prefix-append,
}
unfoldable pub use Texts.{take_bytes, trim_prefix, has_prefix, contains}
pub use Results.*
pub use Float.*
pub use Prim.Native.Nat.{ℕ, zero, suc, ◌+◌, ◌-◌, ◌*◌, ◌/◌, ◌%◌, ◌^◌, ◌≤◌, ◌<◌}
pub use Prim.Native.String.{String}
pub use mathlib.Core.Path.{◌≡◌, refl, sym, ap, ◌∙◌, subst}
pub use mathlib.Core.Logic.{◌≢◌, ◌↔◌, ◌⊎◌, inl, inr}
pub use mathlib.Core.Bool.{Bool, true, false, ◌&&◌, ◌||◌, not}
pub use mathlib.Core.Option.{Option, none, some}
pub use mathlib.Core.List.{List, [], ◌∷◌, ◌++◌, map, append_assoc, append-nil}
pub use native.Mathlib.Omega.{arith}
pub use text.Mathlib.Text.{◌==◌ as str_eq}
pub use text.Mathlib.TextEquality.{eq_iff}
pub use text.Mathlib.TextPositions.{eq_refl}
