-- ===== src/Validation/Spec.antt =====
-- What makes a request valid, as a predicate, apart from the code of
-- internal/validation/validator.go.
use aegis_ai_gateway.Prelude.{
  ◌≤ℤ◌, [], ◌<ℤ◌, pos, byte_length, ◌⊎◌, none, ◌+◌, false, All, ◌∷◌, rune_count, length, ◌<◌, ◌≡◌,
  ◌≢◌, ◌≤◌, some, ℤ, Option, List, Float64, String, ℕ,
}
use Prim.Native.Char.{code}
use aegis_ai_gateway.Types.{Message, AegisRequest}
use aegis_ai_gateway.Validation.{String, Float64, ℕ, Option, List, Limits}

-- Every rune of a text.
abbrev pub Runes : (ℕ → Type 0) → String → Type 0
Runes P String.[] = Unit
Runes P (String.◌∷◌ c s) = P (code c) × Runes P s

abbrev pub IsModelRune : ℕ → Type 0
IsModelRune r =
    ((b'a' ≤ r) × (r ≤ b'z'))
    ⊎ ((b'A' ≤ r) × (r ≤ b'Z'))
    ⊎ ((b'0' ≤ r) × (r ≤ b'9'))
    ⊎ (r ≡ b'-')
    ⊎ (r ≡ b'_')
    ⊎ (r ≡ b'.')
    ⊎ (r ≡ b':')

-- A printable rune, or a tab, a line feed or a carriage return.
abbrev pub IsContentRune : ℕ → Type 0
IsContentRune r = (32 ≤ r) ⊎ (r ≡ 9) ⊎ (r ≡ 10) ⊎ (r ≡ 13)

abbrev pub IsRole : String → Type 0
IsRole role = (role ≡ "system") ⊎ (role ≡ "user") ⊎ (role ≡ "assistant") ⊎ (role ≡ "function")

abbrev pub total_runes : List Message → ℕ
total_runes [] = 0
total_runes (m ∷ ms) = rune_count m.content + total_runes ms

abbrev pub IfSet : {A : Type 0} → (A → Type 0) → Option A → Type 0
IfSet P none = Unit
IfSet P (some a) = P a

module _ (fl : Float64) (limits : Limits fl.F) where
  open fl use {F, lt}

  abbrev pub IsModel : String → Type 0
  IsModel model =
      (model ≢ "") × (byte_length model ≤ limits.max_model_name_length) × Runes IsModelRune model

  abbrev pub IsMessage : Message → Type 0
  IsMessage m =
      IsRole m.role
      × (rune_count m.content ≤ limits.max_message_length)
      × Runes IsContentRune m.content

  abbrev pub AreMessages : List Message → Type 0
  AreMessages ms =
      (0 < length ms)
      × (length ms ≤ limits.max_messages_count)
      × All IsMessage ms
      × (total_runes ms ≤ limits.max_total_content_length)

  abbrev pub IsTemperature : F → Type 0
  IsTemperature t = (lt t limits.min_temperature ≡ false) × (lt limits.max_temperature t ≡ false)

  abbrev pub IsMaxTokens : ℤ → Type 0
  IsMaxTokens n = (pos 0 <ℤ n) × (n ≤ℤ pos limits.max_tokens)

  abbrev pub IsTopP : F → Type 0
  IsTopP p = (lt p limits.min_top_p ≡ false) × (lt limits.max_top_p p ≡ false)

  abbrev pub AreStops : List String → Type 0
  AreStops stop =
      (length stop ≤ limits.max_stop_sequences)
      × All (λ s. byte_length s ≤ limits.max_stop_sequence_length) stop

  -- All limits hold of the request.
  pub record IsValid (req : AegisRequest F) : Type 0 where
    pub model : IsModel req.model
    pub messages : AreMessages req.messages
    pub temperature : IfSet IsTemperature req.temperature
    pub max_tokens : IfSet IsMaxTokens req.max_tokens
    pub top_p : IfSet IsTopP req.top_p
    pub stop : AreStops req.stop
