-- ===== src/Gateway/Refactored/Answers.antt =====
-- When the two handlers of internal/gateway answer the same, and that the refactored one counts and prices
-- a response as the other does.
use aegis_ai_gateway.Prelude.{
  sym, ◌||◌, leb_ℤ, Bool, if◌then◌else◌, ◌∙◌, not, Option, inr, inl, ◌++◌, pos, ◌⊎◌, ap, true, List,
  String, refl, Float64, ◌≡◌, some, false,
}
use aegis_ai_gateway.Types.{AegisRequest, AegisResponse, AuthInfo}
use aegis_ai_gateway.Events.{Event}
use aegis_ai_gateway.Config.{ModelsConfig}
use aegis_ai_gateway.Cost.{Calculator, calculate}
use aegis_ai_gateway.Gateway.{answered, Bool, Option, note_all, true, String, List, State, Outcome}
use aegis_ai_gateway.Gateway.Handler.{complete, prefixed}
use aegis_ai_gateway.Gateway.Parts.{Handler, Incoming, Formats}
use aegis_ai_gateway.Gateway.Delivery.{completed_effects, set_cost, price}
use aegis_ai_gateway.Gateway.Refactored.{leb_ℤ, not, pos, Float64, Step, done, boxed}
use aegis_ai_gateway.Gateway.Refactored.Stages.{finish, build_response, build, has_tokens}

-- The same response, effects and prices; the health tracker may have been told otherwise.
pub record Agrees {F : Type 0} (o o' : Outcome F) : Type 0 where
  pub reply : o.reply ≡ o'.reply
  pub effects : o.effects ≡ o'.effects
  pub calculator : o.state.calculator ≡ o'.state.calculator

pub same : {F : Type 0} (o : Outcome F) → Agrees o o
same o = record { reply = refl; effects = refl; calculator = refl }

pub if-Agrees :
    {F : Type 0} (b : Bool) (x x' y y' : Outcome F)
    → Agrees x x'
    → Agrees y y'
    → Agrees (if b then x else y) (if b then x' else y')
if-Agrees true x x' y y' a b = a
if-Agrees false x x' y y' a b = b

module _ (fl : Float64) (formats : Formats fl.F) (h : Handler fl.F) (inc : Incoming fl.F) where
  pub prefixed-Agrees :
      (es : List Event) (o o' : Outcome fl.F)
      → Agrees o o'
      → Agrees (prefixed fl formats h inc es o) (prefixed fl formats h inc es o')
  prefixed-Agrees es o o' a = record {
    reply = a.reply;
    effects = ap (λ z. note_all es ++ z) a.effects;
    calculator = a.calculator;
  }

  abbrev pub IsCounted : AegisResponse fl.F → Type 0
  IsCounted r =
      (has_tokens fl formats h inc r ≡ true)
      ⊎ ((r.usage.prompt_tokens ≡ pos 0)
          × (r.usage.completion_tokens ≡ pos 0)
          × (r.estimated_cost_usd ≡ fl.of_int (pos 0)))

  abbrev named : AegisResponse fl.F → AegisResponse fl.F
  named r = record r { request_id = inc.request_id }

  calculate_free :
      (cfg : Option (ModelsConfig fl.F)) (c : Calculator fl.F) (provider model : String)
      → calculate fl cfg c provider model (pos 0) (pos 0) ≡ (c, fl.of_int (pos 0), true)
  unfolding calculate
  calculate_free cfg c provider model = refl

  has_tokens-none :
      (r : AegisResponse fl.F)
      → r.usage.prompt_tokens ≡ pos 0
      → r.usage.completion_tokens ≡ pos 0
      → has_tokens fl formats h inc r ≡ false
  has_tokens-none r p q =
      ap (λ z. not (leb_ℤ z (pos 0)) || not (leb_ℤ r.usage.completion_tokens (pos 0))) p
      ∙ ap (λ z. not (leb_ℤ z (pos 0))) q

  price_free :
      (c : Calculator fl.F) (r : AegisResponse fl.F)
      → r.usage.prompt_tokens ≡ pos 0
      → r.usage.completion_tokens ≡ pos 0
      → r.estimated_cost_usd ≡ fl.of_int (pos 0)
      → price fl formats h inc (some c) r ≡ (some c, r)
  price_free c r p q free =
      let priced : Calculator fl.F × fl.F × Bool → Option (Calculator fl.F) × AegisResponse fl.F =
        λ z. (some z.0, set_cost fl formats h inc (z.1, z.2) r) in
      ap
        (λ z.
          priced (calculate fl (some h.models) c r.provider r.model z r.usage.completion_tokens))
        p
      ∙ ap (λ z. priced (calculate fl (some h.models) c r.provider r.model (pos 0) z)) q
      ∙ ap priced (calculate_free (some h.models) c r.provider r.model)
      ∙ ap (λ z. (some c, record r { estimated_cost_usd = z })) (sym free)

  build_response-price :
      (c : Calculator fl.F) (r : AegisResponse fl.F)
      → IsCounted r
      → build_response fl formats h inc (boxed (some c)) r ≡ (
        (price fl formats h inc (some c) (named r)).0,
        done (price fl formats h inc (some c) (named r)).1,
      )
  unfolding build_response
  build_response-price c r (inl some_tokens) =
      let (c', priced) = price fl formats h inc (some c) (named r) in
      ap (λ z. if z then (c', done priced) else (some c, done (named r))) some_tokens
  build_response-price c r (inr (p, q, free)) =
      let (c', priced) = price fl formats h inc (some c) (named r) in
      ap (λ z. if z then (c', done priced) else (some c, done (named r))) (has_tokens-none r p q)
      ∙ ap (λ z. (z.0, done z.1)) (sym (price_free c (named r) p q free))

  module _ (info : AuthInfo) (original : String) (c : Calculator fl.F) where
    pub complete-Agrees :
        (req : AegisRequest fl.F) (p p' : String) (s s' : State fl.F) (r : AegisResponse fl.F)
        → s.calculator ≡ some c
        → s'.calculator ≡ some c
        → IsCounted r
        → Agrees
            (complete fl formats h inc info original (record req { provider_type = p }) s r)
            (build fl formats h inc info original (record req { provider_type = p' }) s' r)
    unfolding complete build
    complete-Agrees req p p' s s' r e e' counted =
        let x = price fl formats h inc (some c) (named r) in
        let priced = ap (λ z. price fl formats h inc z (named r)) e in
        let built =
          ap (λ z. build_response fl formats h inc (boxed z) r) e'
          ∙ build_response-price c r counted in
        let ended : Option (Calculator fl.F) × Step (AegisResponse fl.F) → Outcome fl.F = λ z.
          finish fl formats h inc info original (record req { provider_type = p' })
            (record s' { calculator = z.0 }) z.1 in
        record {
          reply = ap (λ z. answered z.1) priced ∙ sym (ap (λ z. (ended z).reply) built);
          effects =
              ap (λ z. completed_effects fl formats h inc original info req z.1) priced
              ∙ sym (ap (λ z. (ended z).effects) built);
          calculator = ap (λ z. z.0) priced ∙ sym (ap (λ z. (ended z).state.calculator) built);
        }
