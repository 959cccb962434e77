-- ===== src/Prelude/Texts.antt =====
-- Lengths of a text in runes and in the bytes of its UTF-8 form, and the functions of Go's `strings`.
use Prim.Native.Nat.{ℕ, suc, ◌+◌, ◌-◌, ◌≤◌}
use Prim.Native.Char.{Char, code}
use Prim.Native.String.append
use Prim.Native.String.{String, ◌++◌}
use native.Mathlib.Omega.{arith}
use mathlib.Core.Path.{◌≡◌, refl, sym, ap, ◌∙◌}
use mathlib.Core.Bool.{Bool, true, false}
use mathlib.Core.Option.{Option, none, some}
use aegis_ai_gateway.Prelude.Tests.{ltb, leb, if◌then◌else◌, ◌==◌}

-- `utf8.RuneLen`
abbrev pub rune_width : ℕ → ℕ
rune_width c = if ltb c 0x80 then 1 else if ltb c 0x800 then 2 else if ltb c 0x10000 then 3 else 4

-- `utf8.RuneCountInString(s)`
abbrev pub rune_count : String → ℕ
rune_count String.[] = 0
rune_count (String.◌∷◌ c s) = suc (rune_count s)

-- `len(s)`
abbrev pub byte_length : String → ℕ
byte_length String.[] = 0
byte_length (String.◌∷◌ c s) = rune_width (code c) + byte_length s

pub rune_count-le-byte_length : (s : String) → rune_count s ≤ byte_length s
rune_count-le-byte_length String.[] = omega arith
rune_count-le-byte_length (String.◌∷◌ c s) = ground (arith, rune_count-le-byte_length s)

pub nil-append : (t : String) → "" ++ t ≡ t
nil-append t = append.nil t

pub cons-append : (c : Char) (s t : String) → String.◌∷◌ c s ++ t ≡ String.◌∷◌ c (s ++ t)
cons-append c s t = append.cons c s t

pub byte_length-append : (s t : String) → byte_length (s ++ t) ≡ byte_length s + byte_length t
byte_length-append String.[] t = ap byte_length (nil-append t) ∙ omega arith
byte_length-append (String.◌∷◌ c s) t =
    ap byte_length (cons-append c s t) ∙ omega (arith, byte_length-append s t)

-- `s[:n]`, the runes of the first n bytes. A rune that the cut falls into is left out, where Go keeps its
-- first bytes.
unfoldable pub take_bytes : ℕ → String → String
take_bytes n String.[] = ""
take_bytes n (String.◌∷◌ c s) =
    let rest = take_bytes (n - rune_width (code c)) s in
    if leb (rune_width (code c)) n then String.◌∷◌ c rest else ""

take_bytes-fits :
    (c : Char) (s : String) (n : ℕ)
    → take_bytes (rune_width (code c) + n) (String.◌∷◌ c s) ≡ String.◌∷◌ c (take_bytes n s)
unfolding take_bytes
take_bytes-fits c s n =
    let w = rune_width (code c) in
    let fits : leb w (w + n) ≡ true = ground arith in
    let rest : w + n - w ≡ n = omega arith in rw (fits, rest) refl

-- A cut behind a text takes it whole.
pub take_bytes-append :
    (s t : String) (n : ℕ) → take_bytes (byte_length s + n) (s ++ t) ≡ s ++ take_bytes n t
take_bytes-append String.[] t n =
    ap (take_bytes (0 + n)) (nil-append t)
    ∙ (ap (λ k. take_bytes k t) (omega arith) ∙ sym (nil-append (take_bytes n t)))
take_bytes-append (String.◌∷◌ c s) t n =
    ap (take_bytes (rune_width (code c) + byte_length s + n)) (cons-append c s t)
    ∙ (ap (λ k. take_bytes k (String.◌∷◌ c (s ++ t))) (omega arith)
        ∙ (take_bytes-fits c (s ++ t) (byte_length s + n)
            ∙ (ap (String.◌∷◌ c) (take_bytes-append s t n)
                ∙ sym (cons-append c s (take_bytes n t)))))

take_bytes-cons :
    (n : ℕ) (c : Char) (s t : String)
    → take_bytes (n - rune_width (code c)) s ≡ take_bytes (n - rune_width (code c)) t
    → take_bytes n (String.◌∷◌ c s) ≡ take_bytes n (String.◌∷◌ c t)
unfolding take_bytes
take_bytes-cons n c s t e = ap (λ u. if leb (rune_width (code c)) n then String.◌∷◌ c u else "") e

take_bytes-zero : (s : String) → take_bytes 0 s ≡ ""
unfolding take_bytes
take_bytes-zero String.[] = refl
take_bytes-zero (String.◌∷◌ c s) = ground arith

-- A cut within a text does not see what follows it.
pub take_bytes-within :
    (s t u : String) (n : ℕ) → n ≤ byte_length s → take_bytes n (s ++ t) ≡ take_bytes n (s ++ u)
take_bytes-within String.[] t u n h =
    let none_left : n ≡ 0 = omega (arith, h) in
    rw none_left (take_bytes-zero ("" ++ t) ∙ sym (take_bytes-zero ("" ++ u)))
take_bytes-within (String.◌∷◌ c s) t u n h =
    ap (take_bytes n) (cons-append c s t)
    ∙ (take_bytes-cons n c (s ++ t) (s ++ u)
          (take_bytes-within s t u (n - rune_width (code c)) (omega (arith, h)))
        ∙ ap (take_bytes n) (sym (cons-append c s u)))

abbrev after_prefix : String → String → Option String
after_prefix String.[] s = some s
after_prefix (String.◌∷◌ c p) String.[] = none
after_prefix (String.◌∷◌ c p) (String.◌∷◌ d s) =
    let rest = after_prefix p s in if code c == code d then rest else none

abbrev or_whole : String → Option String → String
or_whole s none = s
or_whole s (some rest) = rest

-- `strings.TrimPrefix(s, prefix)`: what follows the prefix, or the whole text.
unfoldable pub trim_prefix : String → String → String
trim_prefix s prefix = or_whole s (after_prefix prefix s)

eq_code : (n : ℕ) → (n == n) ≡ true
eq_code n = ground arith

after_prefix-append : (p s : String) → after_prefix p (p ++ s) ≡ some s
after_prefix-append String.[] s = ap some (nil-append s)
after_prefix-append (String.◌∷◌ c p) s =
    ap (after_prefix (String.◌∷◌ c p)) (cons-append c p s)
    ∙ rw (eq_code (code c)) (after_prefix-append p s)

pub trim_prefix-append : (p s : String) → trim_prefix (p ++ s) p ≡ s
unfolding trim_prefix
trim_prefix-append p s = ap (or_whole (p ++ s)) (after_prefix-append p s)

abbrev is_found : Option String → Bool
is_found none = false
is_found (some rest) = true

-- `strings.HasPrefix(s, prefix)`
unfoldable pub has_prefix : String → String → Bool
has_prefix s prefix = is_found (after_prefix prefix s)

-- `strings.Contains(s, sub)`
unfoldable pub contains : String → String → Bool
unfolding has_prefix
contains String.[] sub = has_prefix String.[] sub
contains (String.◌∷◌ c s) sub =
    let later = contains s sub in if has_prefix (String.◌∷◌ c s) sub then true else later
