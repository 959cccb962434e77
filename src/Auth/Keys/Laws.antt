-- ===== src/Auth/Keys/Laws.antt =====
-- What a key of internal/auth/apikey.go shows of itself, and how long it lasts.
use Prim.Native.Char.{Char, code, char}
use Prim.Native.String.{◌++◌}
use text.Mathlib.TextLemmas.{append_assoc}
use aegis_ai_gateway.Prelude.{
  eq_iff, ℕ, ℤ, pos, zero, suc, ◌+◌, ◌*◌, ◌^◌, ◌≤◌, ◌<◌, String, Bool, true, false, ◌&&◌, Option,
  none, some, Result, ok, err, ltb, ◌==◌, str_eq, arith, ◌≡◌, ◌↔◌, refl, sym, ap, ◌∙◌, Bool-cases,
  inl, inr, rune_width, byte_length, byte_length-append, take_bytes, take_bytes-append, nil-append,
  cons-append,
}
use aegis_ai_gateway.Auth.Keys.{
  alphanumeric, rune_at, put_front, picked, random_string, format_key, format_result, generate_key,
  find_end, cut, key_prefix, wrap_64, day, ends_in_d, days_or, parse_duration,
}

-- No rune of the text is a dash.
abbrev pub HasNoDash : String → Type 0
HasNoDash String.[] = Unit
HasNoDash (String.◌∷◌ c s) = ((code c == 45) ≡ false) × HasNoDash s

find_end-cons :
    (c : Char) (s : String) (dashes i : ℕ)
    → (code c == 45) ≡ false
    → find_end dashes i (String.◌∷◌ c s) ≡ find_end dashes (i + rune_width (code c)) s
unfolding find_end
find_end-cons c s dashes i other = rw other refl

-- From the second dash on.
find_end-env :
    (env random : String) (i : ℕ)
    → HasNoDash env
    → find_end 1 i (env ++ ("-" ++ random)) ≡ some (i + byte_length env + 9)
unfolding find_end
find_end-env String.[] random i u =
    ap (find_end 1 i) (nil-append ("-" ++ random) ∙ cons-append (char 45 tt) "" random)
    ∙ ap some (omega arith)
find_end-env (String.◌∷◌ c s) random i (other, u) =
    ap (find_end 1 i) (cons-append c s ("-" ++ random))
    ∙ (find_end-cons c (s ++ ("-" ++ random)) 1 i other
        ∙ (find_end-env s random (i + rune_width (code c)) u ∙ ap some (omega arith)))

-- All of one byte each.
abbrev is_narrow : String → Bool
is_narrow String.[] = true
is_narrow (String.◌∷◌ c s) = (rune_width (code c) == 1) && is_narrow s

rune_at-narrow :
    (s : String) (i : ℕ) (c : Char)
    → is_narrow s ≡ true
    → rune_at s i ≡ some c
    → rune_width (code c) ≡ 1
rune_at-narrow String.[] i c h e = cc e
rune_at-narrow (String.◌∷◌ d s) zero c h e =
    let same : d ≡ c = cc e in ground (arith, ap (λ z. rune_width (code z)) same)
rune_at-narrow (String.◌∷◌ d s) (suc i) c h e = rune_at-narrow s i c (ground arith) e

put_front-length :
    (o : Option Char) (n : ℕ) (rest : Result String String) (s : String)
    → ((c : Char) → o ≡ some c → rune_width (code c) ≡ 1)
    → ((t : String) → rest ≡ ok t → byte_length t ≡ n)
    → put_front o rest ≡ ok s
    → byte_length s ≡ suc n
put_front-length none n rest s narrow h e = cc e
put_front-length (some c) n (err f) s narrow h e = cc e
put_front-length (some c) n (ok t) s narrow h e =
    let same : String.◌∷◌ c t ≡ s = cc e in
    omega (arith, ap byte_length same, narrow c refl, h t refl)

picked-length :
    (r : Result String ℕ) (n : ℕ) (rest : Result String String) (s : String)
    → ((t : String) → rest ≡ ok t → byte_length t ≡ n)
    → picked r rest ≡ ok s
    → byte_length s ≡ suc n
picked-length (err f) n rest s h e = cc e
picked-length (ok i) n rest s h e =
    put_front-length (rune_at alphanumeric i) n rest s (λ c. rune_at-narrow alphanumeric i c refl) h
      e

random_string-length :
    (n : ℕ) (rand : ℕ → Result String ℕ) (s : String)
    → random_string n rand ≡ ok s
    → byte_length s ≡ n
unfolding random_string
random_string-length zero rand s e =
    let same : ◌≡◌ {A = String} "" s = cc e in ap byte_length (sym same)
random_string-length (suc n) rand s e =
    picked-length (rand 0) n (random_string n (λ i. rand (suc i))) s
      (random_string-length n (λ i. rand (suc i))) e

key-shape :
    (env random : String)
    → format_key env random
      ≡ String.◌∷◌ (char 97 tt) (
          String.◌∷◌ (char 101 tt) (
            String.◌∷◌ (char 103 tt) (
              String.◌∷◌
                (char 105 tt)
                (String.◌∷◌ (char 115 tt) (String.◌∷◌ (char 45 tt) (env ++ ("-" ++ random)))))))
unfolding format_key
key-shape env random =
    let x = env ++ ("-" ++ random) in
    append_assoc "aegis-" env ("-" ++ random)
    ∙ (cons-append (char 97 tt) "egis-" x
        ∙ ap (String.◌∷◌ (char 97 tt)) (
            cons-append (char 101 tt) "gis-" x
            ∙ ap (String.◌∷◌ (char 101 tt)) (
                cons-append (char 103 tt) "is-" x
                ∙ ap (String.◌∷◌ (char 103 tt)) (
                    cons-append (char 105 tt) "s-" x
                    ∙ ap (String.◌∷◌ (char 105 tt)) (
                        cons-append (char 115 tt) "-" x
                        ∙ ap (String.◌∷◌ (char 115 tt)) (
                            cons-append (char 45 tt) "" x
                            ∙ ap (String.◌∷◌ (char 45 tt)) (nil-append x)))))))

pub byte_length-format_key :
    (env random : String)
    → byte_length (format_key env random) ≡ byte_length env + byte_length random + 7
unfolding format_key
byte_length-format_key env random =
    let front : byte_length ("aegis-" ++ env) ≡ 6 + byte_length env =
      byte_length-append "aegis-" env in
    let back : byte_length ("-" ++ random) ≡ 1 + byte_length random =
      byte_length-append "-" random in
    omega (arith, byte_length-append ("aegis-" ++ env) ("-" ++ random), front, back)

-- The cut nine bytes behind the environment.
cut-format_key :
    (env random : String)
    → take_bytes (6 + byte_length env + 9) (format_key env random)
      ≡ format_key env (take_bytes 8 random)
unfolding format_key
cut-format_key env random =
    let front : byte_length ("aegis-" ++ env) ≡ 6 + byte_length env =
      byte_length-append "aegis-" env in
    ap (λ k. take_bytes (k + 9) (("aegis-" ++ env) ++ ("-" ++ random))) (sym front)
    ∙ (take_bytes-append ("aegis-" ++ env) ("-" ++ random) 9
        ∙ ap (λ u. ("aegis-" ++ env) ++ u) (take_bytes-append "-" random 8))

key_prefix-format_key :
    (env random : String)
    → HasNoDash env
    → byte_length random ≡ 32
    → key_prefix (format_key env random) ≡ format_key env (take_bytes 8 random)
unfolding key_prefix find_end
key_prefix-format_key env random u long =
    let length = byte_length-format_key env random in
    let found : find_end 0 0 (format_key env random) ≡ some (6 + byte_length env + 9) =
      ap (find_end 0 0) (key-shape env random) ∙ find_end-env env random 6 u in
    let is_long : ltb (byte_length (format_key env random)) 16 ≡ false =
      ground (arith, length, long) in
    let within : ltb (byte_length (format_key env random)) (6 + byte_length env + 9) ≡ false =
      ground (arith, length, long) in
    rw is_long (ap (cut (format_key env random)) found ∙ rw within (cut-format_key env random))

generated :
    (env : String) (r : Result String String) (key : String)
    → format_result env r ≡ ok key
    → (random : String) × (r ≡ ok random) × (format_key env random ≡ key)
generated env (err e) key h = cc h
generated env (ok random) key h = (random, refl, cc h)

pub generate_key-format_key :
    (env : String) (rand : ℕ → Result String ℕ) (key : String)
    → generate_key env rand ≡ ok key
    → (random : String) × (format_key env random ≡ key)
unfolding generate_key
generate_key-format_key env rand key e =
    let (random, drawn, same) = generated env (random_string 32 rand) key e in (random, same)

-- A key that is generated for an environment without a dash is "aegis-", the environment, "-" and 32 bytes
-- of random text, and what is shown of it is the same with the first eight of the 32.
pub key_prefix-generate_key :
    (env : String) (rand : ℕ → Result String ℕ) (key : String)
    → HasNoDash env
    → generate_key env rand ≡ ok key
    → (random : String) × (key ≡ format_key env random)
      × (byte_length random ≡ 32)
      × (key_prefix key ≡ format_key env (take_bytes 8 random))
unfolding generate_key
key_prefix-generate_key env rand key u e =
    let (random, drawn, same) = generated env (random_string 32 rand) key e in
    let long = random_string-length 32 rand random drawn in
    (random, sym same, long, ap key_prefix (sym same) ∙ key_prefix-format_key env random u long)

wrap_64-exact : (n : ℕ) → n < 2 ^ 63 → wrap_64 n ≡ pos n
wrap_64-exact n h = ground arith

wrap_64-pos : (n : ℕ) → wrap_64 n ≡ pos n → n < 2 ^ 63
wrap_64-pos n e = ground arith

parse-days :
    (scan_days parse_go : String → Result String ℤ) (s : String)
    → ends_in_d s ≡ true
    → parse_duration scan_days parse_go s ≡ days_or (scan_days s)
unfolding parse_duration
parse-days scan_days parse_go s last = elim (Bool-cases (str_eq s "")) [
  | inl empty ↦ cc (ap ends_in_d ((eq_iff s "").0 empty), last)
  | inr given ↦ rw (given, last) refl
]

-- A duration in days, zero or more, is parsed to that many days of nanoseconds exactly if they are at most
-- 106,751; with more the product leaves 64 bits, and the result is another duration.
pub parse_duration-days_iff :
    (scan_days parse_go : String → Result String ℤ) (s : String) (n : ℕ)
    → ends_in_d s ≡ true
    → scan_days s ≡ ok (pos n)
    → (parse_duration scan_days parse_go s ≡ ok (pos (n * day))) ↔ (n ≤ 106751)
parse_duration-days_iff scan_days parse_go s n last scanned =
    let parsed = parse-days scan_days parse_go s last ∙ ap days_or scanned in
    (
      λ e.
          let same : wrap_64 (n * day) ≡ pos (n * day) = cc (parsed, e) in
          omega (arith, wrap_64-pos (n * day) same),
      λ h. parsed ∙ ap ok (wrap_64-exact (n * day) (omega (arith, h))),
    )
