-- ===== src/Cost/Keys.antt =====
-- The cache keys of internal/cost/calculator.go: which texts share one.
use aegis_ai_gateway.Prelude.{refl, ◌∙◌, sym, ◌≡◌, ◌≢◌, String}
use Prim.Native.String.{String}
use text.Mathlib.TextLemmas.{append_cancel_left}
use Prim.Native.Char.{Char}
use Prim.Native.String.append
use aegis_ai_gateway.Cost.{cache_key}

abbrev pub colon : Char
colon = ":"

-- No colon in the text.
abbrev pub IsColonFree : String → Type 0
IsColonFree String.[] = Unit
IsColonFree (String.◌∷◌ c s) = (c ≢ colon) × IsColonFree s

heads_agree : (c d : Char) (s t : String) → String.◌∷◌ c s ≡ String.◌∷◌ d t → c ≡ d
heads_agree c d s t h = cc h

tails_agree : (c d : Char) (s t : String) → String.◌∷◌ c s ≡ String.◌∷◌ d t → s ≡ t
tails_agree c d s t h = cc h

-- Without a colon in the providers' names, a key belongs to one provider and model.
pub cache_key_injective :
    (p q m n : String)
    → IsColonFree p
    → IsColonFree q
    → cache_key p m ≡ cache_key q n
    → (p ≡ q) × (m ≡ n)
unfolding cache_key
cache_key_injective String.[] String.[] m n u v h =
    (refl, append_cancel_left ":" m n (sym (append.nil _) ∙ h ∙ append.nil _))
cache_key_injective String.[] (String.◌∷◌ d q) m n u v h = absurd (
    v.0 (
      sym (
        heads_agree _ _ _ _
          (sym (append.cons colon String.[] m) ∙ sym (append.nil _) ∙ h ∙ append.cons d q _))))
cache_key_injective (String.◌∷◌ c p) String.[] m n u v h = absurd (
    u.0 (
      heads_agree _ _ _ _
        (sym (append.cons c p _) ∙ h ∙ append.nil _ ∙ append.cons colon String.[] n)))
cache_key_injective (String.◌∷◌ c p) (String.◌∷◌ d q) m n u v h =
    let e = (sym (append.cons c p _) ∙ h ∙ append.cons d q _) in
    let rest = cache_key_injective p q m n u.1 v.1 (tails_agree _ _ _ _ e) in
    (cc (heads_agree _ _ _ _ e, rest.0), rest.1)
