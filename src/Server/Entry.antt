-- ===== src/Server/Entry.antt =====
-- What stands between the network and a completion: the middleware of cmd/gateway/main.go and the checks
-- of the handler, one behind the other.
use aegis_ai_gateway.Prelude.{
  Float64, String, Bool, true, false, Option, none, some, ok, List, ◌≡◌, refl, ap, ◌∙◌,
}
use aegis_ai_gateway.Types.{AuthInfo}
use aegis_ai_gateway.Auth.{KeyMetadata, Verdict, admit, refuse, info_of, lookup_via, authenticate}
use aegis_ai_gateway.Auth.Guard.{HasToken, authenticate-admit_iff}
use aegis_ai_gateway.RateLimit.Middleware.{
  RateHeaders, Decision, serve_next, reject, middleware, Setup,
}
use aegis_ai_gateway.RateLimit.Middleware.Laws.{RatePasses, SpendPasses, middleware_serves_iff}
use aegis_ai_gateway.Gateway.{Effect}
use aegis_ai_gateway.Gateway.Parts.{Formats}
use aegis_ai_gateway.Gateway.Handler.Gates.{is_served, Passed, chat_completions-Passed}
use aegis_ai_gateway.Server.{
  Protected, chat, models, Endpoint, health_check, protected, endpoint, Request, Server,
  ServerState, Content, health, denied, completion, listing, unrouted, request_id_of, incoming_as,
  limited, guarded, serve_protected, dispatch, serve,
}

-- A completion or a stream.
abbrev pub is_completion : {F : Type 0} → Content F → Bool
is_completion (completion reply) = is_served reply
is_completion (health status body) = false
is_completion (denied e) = false
is_completion (listing found) = false
is_completion unrouted = false

module _ (fl : Float64) (formats : Formats fl.F) (server : Server fl.F) (r : Request fl.F) where
  -- All that a request has shown before its completion.
  pub record Entered (s : ServerState fl.F) : Type 0 where
    pub asked : endpoint r.method r.path ≡ some (protected chat)
    pub token : String
    pub has_token : HasToken r.authorization token
    pub meta : KeyMetadata
    pub found :
        (lookup_via server.db r.reached r.now s.cache (server.hash_key token)).1 ≡ ok (some meta)
    pub rate : RatePasses r.replies s.limits.limiter
    pub spend : SpendPasses r.replies s.limits.budget (info_of meta).daily_spend_limit_cents
    pub passed : Passed fl formats server.handler (incoming_as r (info_of meta)) s.state

  limited-completion :
      (p : Protected) (info : AuthInfo) (headers : Option RateHeaders)
      (effects : List (Effect fl.F)) (d : Decision) (s : ServerState fl.F)
      → is_completion (limited fl formats server r p info headers effects d s).1.content ≡ true
      → (d ≡ serve_next)
        × (p ≡ chat)
        × Passed fl formats server.handler (incoming_as r info) s.state
  limited-completion p info headers effects (reject e) s g = cc g
  limited-completion models info headers effects serve_next s g = cc g
  limited-completion chat info headers effects serve_next s g =
      (refl, refl, chat_completions-Passed fl formats server.handler (incoming_as r info) s.state g)

  abbrev setup : Setup
  setup = record { request_id = request_id_of r; audit = true; metrics = true }

  guarded-completion :
      (p : Protected) (effects : List (Effect fl.F)) (v : Verdict) (s : ServerState fl.F)
      → is_completion (guarded fl formats server r p effects v s).1.content ≡ true
      → (info : AuthInfo) × (v ≡ admit info)
        × ((middleware setup (some info) r.replies s.limits).decision ≡ serve_next)
        × (p ≡ chat)
        × Passed fl formats server.handler (incoming_as r info) s.state
  guarded-completion p effects (refuse e) s g = cc g
  guarded-completion p effects (admit info) s g =
      let (went_on, asked, passed) = limited-completion p info _ _ _ _ g in
      (info, refl, went_on, asked, passed)

  entered :
      (s : ServerState fl.F) (p : Protected) (info : AuthInfo)
      → endpoint r.method r.path ≡ some (protected p)
      → p ≡ chat
      → (authenticate
          (request_id_of r)
          true
          (lookup_via server.db r.reached r.now)
          server.hash_key
          s.cache
          r.authorization).2
        ≡ admit info
      → (middleware setup (some info) r.replies s.limits).decision ≡ serve_next
      → Passed fl formats server.handler (incoming_as r info) s.state
      → Entered s
  entered s p info asked is_chat let_in went_on passed =
      let (token, has, (meta, found, same)) =
        (authenticate-admit_iff (request_id_of r) true (lookup_via server.db r.reached r.now)
            server.hash_key s.cache r.authorization info).0
          let_in in
      let (rate, spend) =
        (middleware_serves_iff setup (info_of meta) r.replies s.limits).0 (rw same at went_on) in
      record {
        asked = asked ∙ ap (λ z. some (protected z)) is_chat;
        token = token;
        has_token = has;
        meta = meta;
        found = found;
        rate = rate;
        spend = spend;
        passed = rw same at passed;
      }

  dispatch-Entered :
      (s : ServerState fl.F) (e : Option Endpoint)
      → endpoint r.method r.path ≡ e
      → is_completion (dispatch fl formats server r e s).1.content ≡ true
      → Entered s
  unfolding serve_protected
  dispatch-Entered s none asked g = cc g
  dispatch-Entered s (some health_check) asked g = cc g
  dispatch-Entered s (some (protected p)) asked g =
      let (info, let_in, went_on, is_chat, passed) = guarded-completion p _ _ _ g in
      entered s p info asked is_chat let_in went_on passed

  -- A completion, or a stream, goes out only for a POST of /v1/chat/completions whose header is "Bearer "
  -- and a token that is not empty, for whose hash the key store has metadata, and which has passed every
  -- check of the handler under the identity that they give. Where Redis is configured, the breaker of the
  -- limiter has let the script run and it has allowed the request; and, where the key has a daily limit,
  -- the breaker of the tracker has let the question through and the spend that Redis gives, or 0 where it
  -- gives none or an error, is below that limit. Where Redis is not configured nothing is limited.
  pub serve-Entered :
      (s : ServerState fl.F)
      → is_completion (serve fl formats server r s).1.content ≡ true
      → Entered s
  unfolding serve
  serve-Entered s g = dispatch-Entered s (endpoint r.method r.path) refl g
