-- ===== src/Types/Lattice.antt =====
-- Classifications as a linear order (internal/types/classification.go).
use aegis_ai_gateway.Prelude.{String, ◌≡◌, ◌↔◌, true, some, pos, ◌≤ℤ◌, arith, eq_iff}
use aegis_ai_gateway.Types.{
  Classification, class_public, class_internal, class_confidential, class_restricted, level, allows,
  parse_classification,
}

-- `c` is one of the four constants.
abbrev pub IsKnown : Classification → Type 0
IsKnown c = pos 0 ≤ℤ level c

-- A text parses exactly when it has a level of its own (0 or more), and then to itself.
pub parse_classification_iff :
    (s c : String) → (parse_classification s ≡ some c) ↔ ((c ≡ s) × IsKnown s)
unfolding parse_classification level
parse_classification_iff s c = ground arith

-- `Allows` is the order of the levels.
pub allows_iff :
    (c content : Classification) → (allows c content ≡ true) ↔ (level content ≤ℤ level c)
unfolding allows
allows_iff c content = ground arith

-- Two classifications that allow one another, the first of them known, are the same text.
pub allows_antisymm :
    (a b : Classification) → IsKnown a → allows a b ≡ true → allows b a ≡ true → a ≡ b
unfolding allows level
allows_antisymm a b k h h' = ground (
  arith,
  eq_iff a class_public,
  eq_iff a class_internal,
  eq_iff a class_confidential,
  eq_iff a class_restricted,
  eq_iff b class_public,
  eq_iff b class_internal,
  eq_iff b class_confidential,
  eq_iff b class_restricted,
)
