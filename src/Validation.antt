-- ===== src/Validation.antt =====
-- internal/validation/validator.go. A text is a list of runes, as `range` and `RuneCountInString` see
-- it; `len` counts its bytes in UTF-8. Errors keep the field and the reason apart, unformatted.
pub mod Spec
pub mod Laws
use Prim.Native.Char.{code}
use aegis_ai_gateway.Prelude.{
  ℕ, zero, suc, ◌+◌, ℤ, pos, String, List, [], ◌∷◌, ◌++◌, Bool, true, false, ◌&&◌, ◌||◌, not,
  Option, some, none, if◌then◌else◌, leb, ltb, ◌==◌, leb_ℤ, ltb_ℤ, str_eq, length, byte_length,
  rune_count, Float64,
}
use aegis_ai_gateway.Types.{Message, AegisRequest}

pub data Field : Type 0 where
  on_model on_messages on_temperature on_max_tokens on_top_p on_stop : Field
  on_role : ℕ → Field
  on_content : ℕ → Field
  on_stop_sequence : ℕ → Field

pub data Reason : Type 0 where
  model_required model_characters messages_required role_required content_characters : Reason
  not_in_range max_tokens_not_positive : Reason
  model_too_long too_many_messages content_too_long total_too_long max_tokens_too_large : ℕ → Reason
  too_many_stops stop_too_long : ℕ → Reason
  invalid_role : String → Reason

pub record ValidationError : Type 0 where
  pub field : Field
  pub message : Reason

abbrev error_at : Field → Reason → ValidationError
error_at field message = record { field = field; message = message }

pub record Limits (F : Type 0) : Type 0 where
  pub max_model_name_length : ℕ
  pub max_messages_count : ℕ
  pub max_message_length : ℕ
  pub max_total_content_length : ℕ
  pub max_tokens : ℕ
  pub min_temperature : F
  pub max_temperature : F
  pub min_top_p : F
  pub max_top_p : F
  pub max_stop_sequences : ℕ
  pub max_stop_sequence_length : ℕ

unfoldable pub default_limits : (fl : Float64) → Limits fl.F
default_limits fl = record {
  max_model_name_length = 256;
  max_messages_count = 1000;
  max_message_length = 100_000;
  max_total_content_length = 1_000_000;
  max_tokens = 128_000;
  min_temperature = fl.of_int (pos 0);
  max_temperature = fl.of_int (pos 2);
  min_top_p = fl.of_int (pos 0);
  max_top_p = fl.of_int (pos 1);
  max_stop_sequences = 4;
  max_stop_sequence_length = 256;
}

unfoldable pub is_valid_model_char : ℕ → Bool
is_valid_model_char r =
    (leb b'a' r && leb r b'z')
    || (leb b'A' r && leb r b'Z')
    || (leb b'0' r && leb r b'9')
    || (r == b'-' || r == b'_' || r == b'.' || r == b':')

unfoldable pub all_model_chars : String → Bool
all_model_chars String.[] = true
all_model_chars (String.◌∷◌ c s) = is_valid_model_char (code c) && all_model_chars s

unfoldable pub is_valid_role : String → Bool
is_valid_role role =
    str_eq role "system" || str_eq role "user" || str_eq role "assistant" || str_eq role "function"

abbrev pub is_dangerous : ℕ → Bool
is_dangerous r = r == 0 || (ltb r 32 && not (r == 10) && not (r == 9) && not (r == 13))

unfoldable pub contains_dangerous_chars : String → Bool
contains_dangerous_chars String.[] = false
contains_dangerous_chars (String.◌∷◌ c s) = is_dangerous (code c) || contains_dangerous_chars s

-- What `Validate` gathers: the errors, and the fields that it reports to the metrics.
pub record Report : Type 0 where
  pub errors : List ValidationError
  pub invalid_fields : List String

abbrev pub one : String → Option ValidationError → Report
one name none = record { errors = []; invalid_fields = [] }
one name (some e) = record { errors = e ∷ []; invalid_fields = name ∷ [] }

abbrev pub many : String → List ValidationError → Report
many name [] = record { errors = []; invalid_fields = [] }
many name (e ∷ es) = record { errors = e ∷ es; invalid_fields = name ∷ [] }

-- A check of a pointer that may be nil.
abbrev pub if_set {κ} :
    {A : Type κ} → Option A → (A → Option ValidationError) → Option ValidationError
if_set none check = none
if_set (some a) check = check a

infixr 65 ◌+++◌
abbrev pub ◌+++◌ : Report → Report → Report
r +++ s = record {
  errors = r.errors ++ s.errors;
  invalid_fields = r.invalid_fields ++ s.invalid_fields;
}

module _ (fl : Float64) (limits : Limits fl.F) where
  open fl use {F, lt}

  unfoldable pub validate_model : String → Option ValidationError
  validate_model model =
      if str_eq model ""
      then some (error_at on_model model_required)
      else if ltb limits.max_model_name_length (byte_length model)
      then some (error_at on_model (model_too_long limits.max_model_name_length))
      else if not (all_model_chars model)
      then some (error_at on_model model_characters)
      else none

  -- One round of the loop: the errors of message `i`.
  unfoldable pub validate_message : ℕ → Message → List ValidationError
  validate_message i msg =
      (if str_eq msg.role ""
        then error_at (on_role i) role_required ∷ []
        else if not (is_valid_role msg.role)
        then error_at (on_role i) (invalid_role msg.role) ∷ []
        else [])
      ++ (if ltb limits.max_message_length (rune_count msg.content)
          then error_at (on_content i) (content_too_long limits.max_message_length) ∷ []
          else [])
      ++ (if contains_dangerous_chars msg.content
          then error_at (on_content i) content_characters ∷ []
          else [])

  -- The loop from message `i`, and the test of the total after it.
  unfoldable pub message_loop : ℕ → ℕ → List Message → List ValidationError
  unfolding validate_message
  message_loop i total [] =
      if ltb limits.max_total_content_length total
      then error_at on_messages (total_too_long limits.max_total_content_length) ∷ []
      else []
  message_loop i total (msg ∷ msgs) =
      validate_message i msg ++ message_loop (i + 1) (total + rune_count msg.content) msgs

  unfoldable pub validate_messages : List Message → List ValidationError
  unfolding message_loop
  validate_messages messages =
      if length messages == 0
      then error_at on_messages messages_required ∷ []
      else if ltb limits.max_messages_count (length messages)
      then error_at on_messages (too_many_messages limits.max_messages_count) ∷ []
      else message_loop 0 0 messages

  unfoldable pub validate_temperature : F → Option ValidationError
  validate_temperature temp =
      if lt temp limits.min_temperature || lt limits.max_temperature temp
      then some (error_at on_temperature not_in_range)
      else none

  unfoldable pub validate_max_tokens : ℤ → Option ValidationError
  validate_max_tokens max_tokens =
      if leb_ℤ max_tokens (pos 0)
      then some (error_at on_max_tokens max_tokens_not_positive)
      else if ltb_ℤ (pos limits.max_tokens) max_tokens
      then some (error_at on_max_tokens (max_tokens_too_large limits.max_tokens))
      else none

  unfoldable pub validate_top_p : F → Option ValidationError
  validate_top_p top_p =
      if lt top_p limits.min_top_p || lt limits.max_top_p top_p
      then some (error_at on_top_p not_in_range)
      else none

  -- The loop over the stop sequences from number `i`.
  unfoldable pub stop_loop : ℕ → List String → Option ValidationError
  stop_loop i [] = none
  stop_loop i (seq ∷ stop) =
      let rest = stop_loop (i + 1) stop in
      if ltb limits.max_stop_sequence_length (byte_length seq)
      then some (error_at (on_stop_sequence i) (stop_too_long limits.max_stop_sequence_length))
      else rest

  unfoldable pub validate_stop_sequences : List String → Option ValidationError
  unfolding stop_loop
  validate_stop_sequences stop =
      if ltb limits.max_stop_sequences (length stop)
      then some (error_at on_stop (too_many_stops limits.max_stop_sequences))
      else stop_loop 0 stop

  -- An empty list of errors is the nil that `Validate` returns. The test `len(req.Stop) > 0` is that
  -- of a list that is not empty.
  unfoldable pub validate : AegisRequest F → Report
  unfolding validate_model validate_messages validate_temperature validate_max_tokens validate_top_p
      validate_stop_sequences
  validate req =
      one "model" (validate_model req.model)
      +++ many "messages" (validate_messages req.messages)
      +++ one "temperature" (if_set req.temperature validate_temperature)
      +++ one "max_tokens" (if_set req.max_tokens validate_max_tokens)
      +++ one "top_p" (if_set req.top_p validate_top_p)
      +++ one "stop" (if length req.stop == 0 then none else validate_stop_sequences req.stop)
