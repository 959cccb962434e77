-- ===== src/Telemetry/Numbers.antt =====
-- The texts of numbers in the labels of internal/telemetry/metrics.go.
use Prim.Native.Char.{Char, code}
use aegis_ai_gateway.Prelude.{
  ltb, ◌^◌, ◌-◌, ◌<◌, ◌↔◌, ◌≢◌, Bool-cases, inl, inr, sym, ℕ, ℤ, pos, negsuc, zero, suc, ◌/◌, ◌%◌,
  ◌==◌, String, Bool, false, if◌then◌else◌, if-both, ◌≡◌, refl, ap, ◌∙◌, arith,
}
use aegis_ai_gateway.Config.Dsn.{digit, itoa_loop, decimal, eq_zero, decimal-itoa_loop}
use aegis_ai_gateway.Telemetry.{negated_64, itoa}

abbrev negate : ℕ → ℤ
negate zero = pos 0
negate (suc n) = negsuc n

-- The number that a decimal text stands for, with "-" in front of one below zero.
abbrev pub read_int : String → ℤ
read_int String.[] = pos 0
read_int (String.◌∷◌ c s) =
    if code c == 45 then negate (decimal 0 s) else pos (decimal 0 (String.◌∷◌ c s))

abbrev is_signed : String → Bool
is_signed String.[] = false
is_signed (String.◌∷◌ c s) = code c == 45

digit-unsigned : (d : ℕ) → (code (digit d) == 45) ≡ false
digit-unsigned d =
    if-both (λ (c : Char). (code c == 45) ≡ false) (d == 0) refl
      (if-both (λ (c : Char). (code c == 45) ≡ false) (d == 1) refl
        (if-both (λ (c : Char). (code c == 45) ≡ false) (d == 2) refl
          (if-both (λ (c : Char). (code c == 45) ≡ false) (d == 3) refl
            (if-both (λ (c : Char). (code c == 45) ≡ false) (d == 4) refl
              (if-both (λ (c : Char). (code c == 45) ≡ false) (d == 5) refl
                (if-both (λ (c : Char). (code c == 45) ≡ false) (d == 6) refl
                  (if-both (λ (c : Char). (code c == 45) ≡ false) (d == 7) refl
                    (if-both (λ (c : Char). (code c == 45) ≡ false) (d == 8) refl refl))))))))

itoa_loop-unsigned :
    (fuel i : ℕ) (s : String) → is_signed s ≡ false → is_signed (itoa_loop fuel i s) ≡ false
unfolding itoa_loop
itoa_loop-unsigned zero i s h = h
itoa_loop-unsigned (suc fuel) i s h =
    if-both (λ z. is_signed z ≡ false) (i == 0) h
      (itoa_loop-unsigned fuel (i / 10) (String.◌∷◌ (digit (i % 10)) s) (digit-unsigned (i % 10)))

read_unsigned : (s : String) → is_signed s ≡ false → read_int s ≡ pos (decimal 0 s)
read_unsigned String.[] h = refl
read_unsigned (String.◌∷◌ c s) h = rw h refl

-- The integers of 64 bits.
abbrev pub IsInt64 : ℤ → Type 0
IsInt64 (pos n) = n < 2 ^ 63
IsInt64 (negsuc n) = n < 2 ^ 63

abbrev pub min_int64 : ℤ
min_int64 = negsuc (2 ^ 63 - 1)

abbrev below : ℤ → ℕ
below (pos n) = 0
below (negsuc n) = n

nothing_left : (n : ℕ) → ltb (suc n) (2 ^ 63) ≡ false → negated_64 (suc n) ≡ 0
nothing_left n least = rw least refl

read_int-pos : (n : ℕ) → read_int (itoa (pos n)) ≡ pos n
unfolding itoa
read_int-pos n = elim (Bool-cases (n == 0)) [
  | inl nothing ↦ rw nothing (ap pos (sym (eq_zero n nothing)))
  | inr some_digit ↦ rw some_digit (
      read_unsigned (itoa_loop n n "") (itoa_loop-unsigned n n "" refl)
      ∙ ap pos (decimal-itoa_loop n n "" (omega arith)))
]

read_int-negsuc : (n : ℕ) → read_int (itoa (negsuc n)) ≡ negate (negated_64 (suc n))
unfolding itoa
read_int-negsuc n =
    ap negate (decimal-itoa_loop (negated_64 (suc n)) (negated_64 (suc n)) "" (omega arith))

-- A 64-bit integer is read back from its text, one below zero as well, exactly if it is not the least one,
-- whose negation wraps around.
pub read_int-itoa_iff : (i : ℤ) → IsInt64 i → (read_int (itoa i) ≡ i) ↔ (i ≢ min_int64)
read_int-itoa_iff (pos n) within = (λ same e. cc e, λ other. read_int-pos n)
read_int-itoa_iff (negsuc n) within =
    let seen = read_int-negsuc n in
    elim (Bool-cases (ltb (suc n) (2 ^ 63))) [
      | inl small ↦ (λ same e. ground (arith, small, ap below e), λ other. seen ∙ rw small refl)
      | inr least ↦ (
        λ same e. cc (seen, same, ap negate (nothing_left n least)),
        λ other. absurd (other (ap negsuc (ground (arith, least, within)))),
      )
    ]
