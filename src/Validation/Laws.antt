-- ===== src/Validation/Laws.antt =====
-- The validator of internal/validation/validator.go accepts exactly the valid requests.
use aegis_ai_gateway.Prelude.{
  ◌++◌, some, rune_count, append-eq-nil_iff, str_eq, Option, refl, ◌≤◌, byte_length, eq_iff, ◌∷◌,
  ◌+◌, All, arith, ◌==◌, ◌↔◌, length, true, none, false, if◌then◌else◌, [], ◌≡◌, ℤ, List, ℕ,
  Float64, String,
}
use Prim.Native.Char.{code}
use aegis_ai_gateway.Types.{Message, AegisRequest}
use aegis_ai_gateway.Validation.Spec.{
  Runes, IsModelRune, IsContentRune, IsRole, total_runes, IfSet, IsModel, IsMessage, AreMessages,
  IsTemperature, IsMaxTokens, IsTopP, AreStops, IsValid,
}
use aegis_ai_gateway.Validation.{
  String, ℕ, Float64, ValidationError, Limits, is_valid_model_char, all_model_chars, is_valid_role,
  is_dangerous, contains_dangerous_chars, validate_model, validate_message, message_loop,
  validate_messages, validate_temperature, validate_max_tokens, validate_top_p, stop_loop,
  validate_stop_sequences, one, many, if_set, validate,
}

is_valid_model_char_iff : (r : ℕ) → (is_valid_model_char r ≡ true) ↔ IsModelRune r
unfolding is_valid_model_char
is_valid_model_char_iff r = ground arith

all_model_chars_iff : (s : String) → (all_model_chars s ≡ true) ↔ Runes IsModelRune s
unfolding all_model_chars
all_model_chars_iff String.[] = ground arith
all_model_chars_iff (String.◌∷◌ c s) =
    ground (arith, is_valid_model_char_iff (code c), all_model_chars_iff s)

is_dangerous_iff : (r : ℕ) → (is_dangerous r ≡ false) ↔ IsContentRune r
is_dangerous_iff r = ground arith

contains_dangerous_chars_iff :
    (s : String) → (contains_dangerous_chars s ≡ false) ↔ Runes IsContentRune s
unfolding contains_dangerous_chars
contains_dangerous_chars_iff String.[] = ground arith
contains_dangerous_chars_iff (String.◌∷◌ c s) =
    ground (arith, is_dangerous_iff (code c), contains_dangerous_chars_iff s)

is_valid_role_iff : (role : String) → (is_valid_role role ≡ true) ↔ IsRole role
unfolding is_valid_role
is_valid_role_iff role = ground (
  arith,
  eq_iff role "system",
  eq_iff role "user",
  eq_iff role "assistant",
  eq_iff role "function",
)

IsRole-ne-empty : (role : String) → IsRole role → str_eq role "" ≡ false
IsRole-ne-empty role h = ground (
  arith,
  eq_iff role "",
  eq_iff "system" "",
  eq_iff "user" "",
  eq_iff "assistant" "",
  eq_iff "function" "",
)

one-errors : (name : String) (o : Option ValidationError) → ((one name o).errors ≡ []) ↔ (o ≡ none)
one-errors name none = ground arith
one-errors name (some e) = ground arith

many-errors : (name : String) (es : List ValidationError) → ((many name es).errors ≡ []) ↔ (es ≡ [])
many-errors name [] = ground arith
many-errors name (e ∷ es) = ground arith

if_set-errors :
    {A : Type 0} (P : A → Type 0) (check : A → Option ValidationError)
    → ((a : A) → (check a ≡ none) ↔ P a)
    → (o : Option A) → (if_set o check ≡ none) ↔ IfSet P o
if_set-errors P check h none = (λ e. tt, λ u. refl)
if_set-errors P check h (some a) = h a

-- Joined errors are none exactly if both parts are.
join-errors :
    {P Q : Type 0} {xs ys : List ValidationError}
    → (xs ≡ []) ↔ P
    → (ys ≡ []) ↔ Q
    → (xs ++ ys ≡ []) ↔ (P × Q)
join-errors {xs} {ys} p q =
    let split = append-eq-nil_iff xs ys in
    (λ e. let (a, b) = split.0 e in (p.0 a, q.0 b), λ h. split.1 (p.1 h.0, q.1 h.1))

iff_trans : {P Q R : Type 0} → P ↔ Q → Q ↔ R → P ↔ R
iff_trans p q = (λ a. q.0 (p.0 a), λ c. p.1 (q.1 c))

module _ (fl : Float64) (limits : Limits fl.F) where
  open fl use {F, lt}

  validate_model_iff :
      (model : String) → (validate_model fl limits model ≡ none) ↔ IsModel fl limits model
  unfolding validate_model
  validate_model_iff model = ground (arith, eq_iff model "", all_model_chars_iff model)

  validate_message_iff :
      (i : ℕ) (m : Message) → (validate_message fl limits i m ≡ []) ↔ IsMessage fl limits m
  unfolding validate_message
  validate_message_iff i m = ground (
    arith,
    is_valid_role_iff m.role,
    contains_dangerous_chars_iff m.content,
    IsRole-ne-empty m.role,
  )

  message_loop_iff :
      (i total : ℕ) (ms : List Message)
      → (message_loop fl limits i total ms ≡ []) ↔ (
          All (IsMessage fl limits) ms × (total + total_runes ms ≤ limits.max_total_content_length))
  unfolding message_loop
  message_loop_iff i total [] = ground arith
  message_loop_iff i total (m ∷ ms) = ground (
    arith,
    append-eq-nil_iff (validate_message fl limits i m)
        (message_loop fl limits (i + 1) (total + rune_count m.content) ms),
    validate_message_iff i m,
    message_loop_iff (i + 1) (total + rune_count m.content) ms,
  )

  validate_messages_iff :
      (ms : List Message) → (validate_messages fl limits ms ≡ []) ↔ AreMessages fl limits ms
  unfolding validate_messages
  validate_messages_iff ms = ground (arith, message_loop_iff 0 0 ms)

  validate_temperature_iff :
      (t : F) → (validate_temperature fl limits t ≡ none) ↔ IsTemperature fl limits t
  unfolding validate_temperature
  validate_temperature_iff t = ground arith

  validate_max_tokens_iff :
      (n : ℤ) → (validate_max_tokens fl limits n ≡ none) ↔ IsMaxTokens fl limits n
  unfolding validate_max_tokens
  validate_max_tokens_iff n = ground arith

  validate_top_p_iff : (p : F) → (validate_top_p fl limits p ≡ none) ↔ IsTopP fl limits p
  unfolding validate_top_p
  validate_top_p_iff p = ground arith

  stop_loop_iff :
      (i : ℕ) (stop : List String)
      → (stop_loop fl limits i stop ≡ none)
        ↔ All (λ s. byte_length s ≤ limits.max_stop_sequence_length) stop
  unfolding stop_loop
  stop_loop_iff i [] = (λ e. tt, λ u. refl)
  stop_loop_iff i (s ∷ stop) = ground (arith, stop_loop_iff (i + 1) stop)

  validate_stop_iff :
      (stop : List String)
      → ((if length stop == 0 then none else validate_stop_sequences fl limits stop) ≡ none)
        ↔ AreStops fl limits stop
  unfolding validate_stop_sequences
  validate_stop_iff [] = ground arith
  validate_stop_iff (s ∷ stop) = ground (arith, stop_loop_iff 0 (s ∷ stop))

-- `Validate` returns nil exactly for the requests within all limits: a model name of allowed
-- characters that is neither empty nor too long in bytes; at least one message and not too many, each
-- with a known role and a content of allowed characters that is not too long in runes, nor in total;
-- temperature, top_p and max_tokens in range where they are set; few enough and short enough stops.
pub validate_iff :
    (fl : Float64) (limits : Limits fl.F) (req : AegisRequest fl.F)
    → ((validate fl limits req).errors ≡ []) ↔ IsValid fl limits req
unfolding validate
validate_iff fl limits req =
    let parts =
      join-errors (iff_trans (one-errors "model" _) (validate_model_iff fl limits req.model)) (
        join-errors
          (iff_trans (many-errors "messages" _) (validate_messages_iff fl limits req.messages))
          (join-errors
            (iff_trans (one-errors "temperature" _)
              (if_set-errors _ _ (validate_temperature_iff fl limits) req.temperature))
            (join-errors
              (iff_trans (one-errors "max_tokens" _)
                (if_set-errors _ _ (validate_max_tokens_iff fl limits) req.max_tokens))
              (join-errors
                (iff_trans (one-errors "top_p" _)
                  (if_set-errors _ _ (validate_top_p_iff fl limits) req.top_p))
                (iff_trans (one-errors "stop" _) (validate_stop_iff fl limits req.stop)))))) in
    (
      λ e.
          let (m, (ms, (t, (n, (p, s))))) = parts.0 e in
          record { model = m; messages = ms; temperature = t; max_tokens = n; top_p = p; stop = s },
      λ v. parts.1 (v.model, (v.messages, (v.temperature, (v.max_tokens, (v.top_p, v.stop))))),
    )
