-- ===== src/Server/Billing.antt =====
-- What a request to the router of cmd/gateway/main.go is charged, and what a refusal leaves alone.
use aegis_ai_gateway.Prelude.{
  Float64, ◌++◌, Bool, false, Option, none, some, List, [], ◌≡◌, refl, sym, ap, ◌∙◌, append-nil,
  append_assoc,
}
use aegis_ai_gateway.Types.{AegisRequest, AuthInfo}
use aegis_ai_gateway.Http.{ErrorResponse}
use aegis_ai_gateway.Events.{Event}
use aegis_ai_gateway.Auth.{Verdict, admit, refuse}
use aegis_ai_gateway.RateLimit.Middleware.{RateHeaders, Decision, serve_next, reject}
use aegis_ai_gateway.Gateway.{Effect, note_all}
use aegis_ai_gateway.Gateway.Parts.{Formats, decoded}
use aegis_ai_gateway.Gateway.Handler.Billing.{
  Charge, charges, bill, charges-note_all, chat_completions_billed,
}
use aegis_ai_gateway.Server.{
  Protected, chat, models, Endpoint, health_check, protected, endpoint, Request, Server,
  ServerState, Content, health, denied, completion, listing, unrouted, Response, incoming_as,
  limited, guarded, serve_protected, dispatch, serve,
}

-- What a response says of itself, where usage is recorded.
abbrev pub bill_of : {F : Type 0} → Bool → Content F → List (Charge F)
bill_of usage (completion reply) = bill usage reply
bill_of usage (health status body) = []
bill_of usage (denied e) = []
bill_of usage (listing found) = []
bill_of usage unrouted = []

module _ (fl : Float64) (formats : Formats fl.F) (server : Server fl.F) (r : Request fl.F) where
  abbrev IsBilled : ServerState fl.F × Response fl.F → Type 0
  IsBilled x = charges x.1.effects ≡ bill_of server.handler.on.usage x.1.content

  noted_uncharged : (xs : List Event) → charges {F = fl.F} (note_all xs) ≡ []
  noted_uncharged xs = ap charges (sym (append-nil (note_all xs))) ∙ charges-note_all xs []

  uncharged : (xs ys : List Event) → charges {F = fl.F} (note_all xs ++ note_all ys) ≡ []
  uncharged xs ys = charges-note_all xs (note_all ys) ∙ noted_uncharged ys

  charged :
      (xs ys : List Event) (later : List (Effect fl.F))
      → charges ((note_all xs ++ note_all ys) ++ later) ≡ charges later
  charged xs ys later =
      ap charges (append_assoc (note_all xs) (note_all ys) later)
      ∙ (charges-note_all xs (note_all ys ++ later) ∙ charges-note_all ys later)

  abbrev IsWhole : Type 0
  IsWhole = (req : AegisRequest fl.F) → r.incoming.body ≡ decoded req → req.stream ≡ false

  limited-IsBilled :
      (p : Protected) (info : AuthInfo) (headers : Option RateHeaders) (xs ys : List Event)
      (d : Decision) (s : ServerState fl.F)
      → IsWhole
      → IsBilled (limited fl formats server r p info headers (note_all xs ++ note_all ys) d s)
  limited-IsBilled p info headers xs ys (reject e) s whole = uncharged xs ys
  limited-IsBilled models info headers xs ys serve_next s whole = charged xs ys []
  limited-IsBilled chat info headers xs ys serve_next s whole =
      charged xs ys _
      ∙ chat_completions_billed fl formats server.handler (incoming_as r info) s.state whole

  guarded-IsBilled :
      (p : Protected) (xs : List Event) (v : Verdict) (s : ServerState fl.F)
      → IsWhole
      → IsBilled (guarded fl formats server r p (note_all xs) v s)
  guarded-IsBilled p xs (refuse e) s whole = noted_uncharged xs
  guarded-IsBilled p xs (admit info) s whole = limited-IsBilled p info _ xs _ _ _ whole

  dispatch-IsBilled :
      (e : Option Endpoint) (s : ServerState fl.F)
      → IsWhole
      → IsBilled (dispatch fl formats server r e s)
  unfolding serve_protected
  dispatch-IsBilled none s whole = refl
  dispatch-IsBilled (some health_check) s whole = refl
  dispatch-IsBilled (some (protected p)) s whole = guarded-IsBilled p _ _ _ whole

  -- A request that is not streamed leaves a usage record exactly if its response is a completion and
  -- usage is recorded, and then one, with what the completion says of itself: no health check, no list of
  -- models and no refusal, of a middleware or of the handler, is charged.
  pub serve_billed :
      (s : ServerState fl.F)
      → ((req : AegisRequest fl.F) → r.incoming.body ≡ decoded req → req.stream ≡ false)
      → charges (serve fl formats server r s).1.effects
        ≡ bill_of server.handler.on.usage (serve fl formats server r s).1.content
  unfolding serve
  serve_billed s whole = dispatch-IsBilled (endpoint r.method r.path) s whole

  abbrev Keeps : ServerState fl.F → ServerState fl.F × Response fl.F → Type 0
  Keeps s x = (e : ErrorResponse) → x.1.content ≡ denied e → x.0.state ≡ s.state

  limited-Keeps :
      (p : Protected) (info : AuthInfo) (headers : Option RateHeaders)
      (effects : List (Effect fl.F)) (d : Decision) (s : ServerState fl.F)
      → Keeps s (limited fl formats server r p info headers effects d s)
  limited-Keeps p info headers effects (reject e) s e' same = refl
  limited-Keeps models info headers effects serve_next s e' same = refl
  limited-Keeps chat info headers effects serve_next s e' same = cc same

  guarded-Keeps :
      (p : Protected) (effects : List (Effect fl.F)) (v : Verdict) (s : ServerState fl.F)
      → Keeps s (guarded fl formats server r p effects v s)
  guarded-Keeps p effects (refuse e) s e' same = refl
  guarded-Keeps p effects (admit info) s e' same = limited-Keeps p info _ _ _ _ e' same

  dispatch-Keeps :
      (e : Option Endpoint) (s : ServerState fl.F) → Keeps s (dispatch fl formats server r e s)
  unfolding serve_protected
  dispatch-Keeps none s e' same = refl
  dispatch-Keeps (some health_check) s e' same = cc same
  dispatch-Keeps (some (protected p)) s e' same = guarded-Keeps p _ _ _ e' same

  -- A request that a middleware refuses leaves the breakers of the providers and the prices as they were.
  pub denied_keeps :
      (s : ServerState fl.F) (e : ErrorResponse)
      → (serve fl formats server r s).1.content ≡ denied e
      → (serve fl formats server r s).0.state ≡ s.state
  unfolding serve
  denied_keeps s e same = dispatch-Keeps (endpoint r.method r.path) s e same
