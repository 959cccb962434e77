-- ===== src/Prelude/Float.antt =====
-- float64, which the language has not: a type with the operations that the program uses, as a
-- parameter. `lt` is Go's `<`, which is false where either side is not a number;
-- `le` is `<=`, and `b > a`, `b >= a` are these with the sides exchanged.
use Prim.Native.Nat.{ℕ, ◌+◌, ◌-◌, ◌*◌, ◌/◌, ◌^◌}
use mathlib.Core.Path.{◌≡◌}
use mathlib.Core.Bool.{Bool, true, false}
use native.Mathlib.Omega.{arith}
use aegis_ai_gateway.Prelude.Tests.{ltb, leb}
use aegis_ai_gateway.Prelude.Int.{ℤ, pos, pos_part}

pub record Float64 : Type 1 where
  pub F : Type 0
  pub lt : F → F → Bool
  pub le : F → F → Bool
  pub add : F → F → F
  pub sub : F → F → F
  pub mul : F → F → F
  pub div : F → F → F
  pub pow : F → F → F
  pub of_int : ℤ → F
  pub to_int : F → ℤ

-- Whole numbers, for tests: subtraction stops at 0 and division rounds down.
abbrev pub whole_numbers : Float64
whole_numbers = record {
  F = ℕ;
  lt = ltb;
  le = leb;
  add = λ a b. a + b;
  sub = λ a b. a - b;
  mul = λ a b. a * b;
  div = λ a b. a / b;
  pow = λ a b. a ^ b;
  of_int = pos_part;
  to_int = pos;
}

-- What IEEE 754 says of comparisons, where `IsNumber` holds of all values but NaN.
pub record FloatOrder (fl : Float64) : Type 1 where
  pub IsNumber : fl.F → Type 0
  pub zero-IsNumber : IsNumber (fl.of_int (pos 0))
  pub lt-IsNumber : (a b : fl.F) → fl.lt a b ≡ true → IsNumber b
  pub le_lt : (t a b : fl.F) → fl.le t a ≡ true → fl.lt a b ≡ true → fl.le t b ≡ true
  pub le_not_lt :
      (t a b : fl.F) → IsNumber a → fl.lt a b ≡ false → fl.le t b ≡ true → fl.le t a ≡ true

whole_le_lt : (t a b : ℕ) → leb t a ≡ true → ltb a b ≡ true → leb t b ≡ true
whole_le_lt t a b = ground arith

whole_le_not_lt : (t a b : ℕ) → ltb a b ≡ false → leb t b ≡ true → leb t a ≡ true
whole_le_not_lt t a b = ground arith

pub whole_numbers_order : FloatOrder whole_numbers
whole_numbers_order = record {
  IsNumber = λ a. Unit;
  zero-IsNumber = tt;
  lt-IsNumber = λ a b h. tt;
  le_lt = whole_le_lt;
  le_not_lt = λ t a b u. whole_le_not_lt t a b;
}

-- What IEEE 754 says of signs: a number that is counted up to is not below zero, and `<` holds one way at
-- most, and of no value with itself.
pub record FloatSign (fl : Float64) : Type 0 where
  pub count_not_negative : (n : ℕ) → fl.lt (fl.of_int (pos n)) (fl.of_int (pos 0)) ≡ false
  pub lt_asym : (a b : fl.F) → fl.lt a b ≡ true → fl.lt b a ≡ false
  pub lt_irrefl : (a : fl.F) → fl.lt a a ≡ false

whole_count_not_negative : (n : ℕ) → ltb n 0 ≡ false
whole_count_not_negative n = ground arith

whole_lt_asym : (a b : ℕ) → ltb a b ≡ true → ltb b a ≡ false
whole_lt_asym a b = ground arith

whole_lt_irrefl : (a : ℕ) → ltb a a ≡ false
whole_lt_irrefl a = ground arith

pub whole_numbers_sign : FloatSign whole_numbers
whole_numbers_sign = record {
  count_not_negative = whole_count_not_negative;
  lt_asym = whole_lt_asym;
  lt_irrefl = whole_lt_irrefl;
}
