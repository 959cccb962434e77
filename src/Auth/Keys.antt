-- ===== src/Auth/Keys.antt =====
-- internal/auth/apikey.go: how a key is made, what is shown of it, and how long it lasts. The random
-- numbers, Sscanf and time.ParseDuration are arguments.
pub mod Laws
use Prim.Native.Char.{Char, code, char}
use Prim.Native.String.{◌++◌}
use aegis_ai_gateway.Prelude.{
  ℕ, ℤ, pos, negsuc, zero, suc, ◌+◌, ◌-◌, ◌*◌, ◌%◌, ◌^◌, String, Bool, false, ◌&&◌, Option, none,
  some, Result, ok, err, if◌then◌else◌, ltb, ◌==◌, str_eq, arith, ◌≡◌, refl, ap, ◌∙◌, rune_width,
  byte_length, take_bytes, nil-append, cons-append,
}

abbrev pub alphanumeric : String
alphanumeric = "abcdefghijklmnopqrstuvwxyz0123456789"

-- `alphanumeric[i]`; the text is ASCII, and past its end there is nothing.
abbrev pub rune_at : String → ℕ → Option Char
rune_at String.[] i = none
rune_at (String.◌∷◌ c s) zero = some c
rune_at (String.◌∷◌ c s) (suc i) = rune_at s i

abbrev pub put_front : Option Char → Result String String → Result String String
put_front none rest = err "index out of range"
put_front (some c) (err e) = err e
put_front (some c) (ok s) = ok (String.◌∷◌ c s)

abbrev pub picked : Result String ℕ → Result String String → Result String String
picked (err e) rest = err e
picked (ok i) rest = put_front (rune_at alphanumeric i) rest

-- The loop of `randomString`: `rand` gives the next number below 36, or an error.
unfoldable pub random_string : ℕ → (ℕ → Result String ℕ) → Result String String
random_string zero rand = ok ""
random_string (suc n) rand = picked (rand 0) (random_string n (λ i. rand (suc i)))

-- "aegis-%s-%s"
unfoldable pub format_key : String → String → String
format_key env random = ("aegis-" ++ env) ++ ("-" ++ random)

abbrev pub format_result : String → Result String String → Result String String
format_result env (err e) = err ("generate random: " ++ e)
format_result env (ok random) = ok (format_key env random)

unfoldable pub generate_key : String → (ℕ → Result String ℕ) → Result String String
generate_key env rand = format_result env (random_string 32 rand)

-- The loop of `KeyPrefix`: from the byte `i` on, with the dashes before it, where the shown part ends.
unfoldable pub find_end : ℕ → ℕ → String → Option ℕ
find_end dashes i String.[] = none
find_end dashes i (String.◌∷◌ c s) =
    let rest = find_end (if code c == 45 then dashes + 1 else dashes) (i + rune_width (code c)) s in
    if code c == 45 && dashes + 1 == 2 then some (i + 9) else rest

abbrev pub cut : String → Option ℕ → String
cut key none = take_bytes 16 key
cut key (some end) = take_bytes (if ltb (byte_length key) end then byte_length key else end) key

unfoldable pub key_prefix : String → String
unfolding find_end
key_prefix key = if ltb (byte_length key) 16 then key else cut key (find_end 0 0 key)

-- A signed 64-bit integer, as a product wraps around.
abbrev pub wrap_64 : ℕ → ℤ
wrap_64 n = let m = n % 2 ^ 64 in if ltb m (2 ^ 63) then pos m else negsuc (2 ^ 64 - m - 1)

abbrev pub day : ℕ
day = 86_400_000_000_000

-- `time.Duration(days) * 24 * time.Hour`
abbrev pub of_days : ℤ → ℤ
of_days (pos n) = wrap_64 (n * day)
of_days (negsuc n) = wrap_64 (2 ^ 64 * suc n * day - suc n * day)

abbrev pub ends_in_d : String → Bool
ends_in_d String.[] = false
ends_in_d (String.◌∷◌ c String.[]) = code c == 100
ends_in_d (String.◌∷◌ c (String.◌∷◌ d s)) = ends_in_d (String.◌∷◌ d s)

abbrev pub days_or : Result String ℤ → Result String ℤ
days_or (err e) = err ("parse days: " ++ e)
days_or (ok days) = ok (of_days days)

-- `scan_days` is `fmt.Sscanf(s, "%dd", &days)`.
unfoldable pub parse_duration :
    (String → Result String ℤ) → (String → Result String ℤ) → String → Result String ℤ
parse_duration scan_days parse_go s =
    if str_eq s ""
    then err "empty duration"
    else if ends_in_d s
    then days_or (scan_days s)
    else parse_go s
