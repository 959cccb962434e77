-- ===== src/Config/Dsn.antt =====
-- `DatabaseConfig.DSN` and `itoa` of internal/config/config.go.
use Prim.Native.Char.{Char, char, code}
use Prim.Native.String.{◌++◌}
use aegis_ai_gateway.Prelude.{
  refl, false, Bool, sym, ◌∙◌, true, zero, inr, inl, ◌%◌, arith, ◌+◌, ◌-◌, ap, ◌/◌, Bool-cases,
  ◌==◌, ◌*◌, ◌<◌, suc, ◌≡◌, if◌then◌else◌, ◌≤◌, ℕ, ℤ, pos, negsuc, String,
}

pub record DatabaseConfig : Type 0 where
  pub host : String
  pub port : ℤ
  pub name : String
  pub user : String
  pub password : String
  pub max_open_conns : ℤ
  pub max_idle_conns : ℤ
  pub conn_max_lifetime : ℕ

-- `rune('0'+d)` of a digit.
abbrev pub digit : ℕ → Char
digit d =
    if d == 0
    then char 48 tt
    else if d == 1
    then char 49 tt
    else if d == 2
    then char 50 tt
    else if d == 3
    then char 51 tt
    else if d == 4
    then char 52 tt
    else if d == 5
    then char 53 tt
    else if d == 6
    then char 54 tt
    else if d == 7
    then char 55 tt
    else if d == 8
    then char 56 tt
    else char 57 tt

-- The loop, with as much fuel as the number's value, which it divides by 10 in each round.
unfoldable pub itoa_loop : ℕ → ℕ → String → String
itoa_loop zero i s = s
itoa_loop (suc fuel) i s =
    let rest = itoa_loop fuel (i / 10) (String.◌∷◌ (digit (i % 10)) s) in if i == 0 then s else rest

-- The loop of a negative number is not entered.
unfoldable pub itoa : ℤ → String
unfolding itoa_loop
itoa (pos n) = if n == 0 then "0" else itoa_loop n n ""
itoa (negsuc n) = ""

unfoldable pub dsn : DatabaseConfig → String
unfolding itoa
dsn d =
    "postgres://"
    ++ (d.user
        ++ (":"
            ++ (d.password
                ++ ("@"
                    ++ (d.host
                        ++ (":" ++ (itoa d.port ++ ("/" ++ (d.name ++ "?sslmode=disable")))))))))

-- The number that decimal digits stand for, after those that `n` stands for.
abbrev pub decimal : ℕ → String → ℕ
decimal n String.[] = n
decimal n (String.◌∷◌ c s) = decimal (n * 10 + (code c - 48)) s

value-if :
    (b : Bool) (x y : Char) (n : ℕ)
    → (b ≡ true → code x - 48 ≡ n)
    → (b ≡ false → code y - 48 ≡ n)
    → code (if b then x else y) - 48 ≡ n
value-if true x y n f g = f refl
value-if false x y n f g = g refl

digit_value : (d : ℕ) → d < 10 → code (digit d) - 48 ≡ d
digit_value d h =
    value-if (d == 0) _ _ d (λ e. ground (arith, e))
      (λ n0.
        value-if (d == 1) _ _ d (λ e. ground (arith, e))
          (λ n1.
            value-if (d == 2) _ _ d (λ e. ground (arith, e))
              (λ n2.
                value-if (d == 3) _ _ d (λ e. ground (arith, e))
                  (λ n3.
                    value-if (d == 4) _ _ d (λ e. ground (arith, e))
                      (λ n4.
                        value-if (d == 5) _ _ d (λ e. ground (arith, e))
                          (λ n5.
                            value-if (d == 6) _ _ d (λ e. ground (arith, e))
                              (λ n6.
                                value-if (d == 7) _ _ d (λ e. ground (arith, e))
                                  (λ n7.
                                    value-if (d == 8) _ _ d (λ e. ground (arith, e))
                                      (λ n8.
                                        ground
                                          (arith, h, n0, n1, n2, n3, n4, n5, n6, n7, n8))))))))))

pub eq_zero : (n : ℕ) → (n == 0) ≡ true → n ≡ 0
eq_zero n e = ground (arith, e)

pub decimal-itoa_loop :
    (fuel i : ℕ) (s : String) → i ≤ fuel → decimal 0 (itoa_loop fuel i s) ≡ decimal i s
unfolding itoa_loop
decimal-itoa_loop zero i s h = ap (λ z. decimal z s) (omega (arith, h))
decimal-itoa_loop (suc fuel) i s h = elim (Bool-cases (i == 0)) [
  | inl nothing ↦ rw nothing (ap (λ z. decimal z s) (omega (arith, eq_zero i nothing)))
  | inr some_digit ↦
      let shorter : i / 10 ≤ fuel = ground (arith, h, some_digit) in
      let digits : (i / 10) * 10 + (code (digit (i % 10)) - 48) ≡ i =
        ap (λ z. (i / 10) * 10 + z) (digit_value (i % 10) (omega arith)) ∙ omega arith in
      rw some_digit (
        decimal-itoa_loop fuel (i / 10) (String.◌∷◌ (digit (i % 10)) s) shorter
        ∙ ap (λ z. decimal z s) digits)
]

-- A number that is not negative is read back from its decimal text.
pub decimal-itoa : (n : ℕ) → decimal 0 (itoa (pos n)) ≡ n
unfolding itoa
decimal-itoa n = elim (Bool-cases (n == 0)) [
  | inl nothing ↦ rw nothing (sym (eq_zero n nothing))
  | inr some_digit ↦ rw some_digit (decimal-itoa_loop n n "" (omega arith))
]
