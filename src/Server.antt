-- ===== src/Server.antt =====
-- The router of cmd/gateway/main.go: which handler a request meets, behind which middleware. chi finds a
-- handler by the method and the path, which hold no pattern here; its RealIP and Recoverer, which main
-- puts in front, are left out. The database of keys, HashKey, Redis' replies and what else a request
-- meets come with the server and the request.
pub mod Billing
pub mod Entry
pub mod Ids
pub mod Reload
pub mod Revocation
pub mod Startup
use aegis_ai_gateway.Prelude.{
  ℕ, String, List, [], ◌++◌, Bool, true, ◌&&◌, Option, some, none, Result, if◌then◌else◌, str_eq,
  Float64,
}
use aegis_ai_gateway.Types.{AuthInfo}
use aegis_ai_gateway.Http.{ErrorResponse}
use aegis_ai_gateway.Auth.{Db, Cache, Verdict, admit, refuse, lookup_via, authenticate}
use aegis_ai_gateway.RateLimit.Middleware.{
  Limits, Replies, RateHeaders, Decision, serve_next, reject, middleware,
}
use aegis_ai_gateway.Status.{PoolStats, HealthResponse, health_handler}
use aegis_ai_gateway.Gateway.{Effect, State, Reply, note_all}
use aegis_ai_gateway.Gateway.Parts.{Handler, Incoming, Formats}
use aegis_ai_gateway.Gateway.Handler.{chat_completions}
use aegis_ai_gateway.Gateway.Models.{ModelObject, list_models}

-- The endpoints in the group that authenticates, and the one outside it.
pub data Protected : Type 0 where
  chat : Protected
  models : Protected

pub data Endpoint : Type 0 where
  health_check : Endpoint
  protected : Protected → Endpoint

unfoldable pub endpoint : String → String → Option Endpoint
endpoint method path =
    if str_eq method "GET" && str_eq path "/aegis/v1/health"
    then some health_check
    else if str_eq method "POST" && str_eq path "/v1/chat/completions"
    then some (protected chat)
    else if str_eq method "GET" && str_eq path "/v1/models"
    then some (protected models)
    else none

-- What a request brings, and what it meets: `generated` is what `generateRequestID` makes, `now` the time
-- of the key's lookup, `reached` whether Redis is there for it.
pub record Request (F : Type 0) : Type 0 where
  pub method : String
  pub path : String
  pub request_id : String
  pub authorization : String
  pub generated : String
  pub now : ℕ
  pub reached : Bool
  pub replies : Replies
  pub database_ping : Option (ℕ × PoolStats)
  pub redis_ping : Option (Option ℕ)
  pub incoming : Incoming F

-- What main makes once.
pub record Server (F : Type 0) : Type 0 where
  pub db : Db
  pub hash_key : String → String
  pub handler : Handler F
  pub version : String

-- What outlives a request.
pub record ServerState (F : Type 0) : Type 0 where
  pub cache : Cache
  pub limits : Limits
  pub state : State F

-- The answer of the health check, of a middleware that does not go on, of one of the two handlers, or
-- chi's own where it has no handler.
pub data Content (F : Type 0) : Type 0 where
  health : ℕ → HealthResponse → Content F
  denied : ErrorResponse → Content F
  completion : Reply F → Content F
  listing : Result ErrorResponse (List ModelObject) → Content F
  unrouted : Content F

pub record Response (F : Type 0) : Type 0 where
  pub request_id : String
  pub headers : Option RateHeaders
  pub effects : List (Effect F)
  pub content : Content F

-- `requestIDMiddleware`
unfoldable pub request_id_of : {F : Type 0} → Request F → String
request_id_of r = if str_eq r.request_id "" then r.generated else r.request_id

-- The request as the handlers see it behind the middleware.
abbrev pub incoming_as : {F : Type 0} → Request F → AuthInfo → Incoming F
incoming_as r info = record r.incoming { request_id = request_id_of r; auth = some info }

module _ (fl : Float64) (formats : Formats fl.F) (server : Server fl.F) (r : Request fl.F) where
  -- The health check has the parts that main gives it.
  abbrev pub check_health : ServerState fl.F → ServerState fl.F × Response fl.F
  check_health s =
      let (tracker, status, body) =
        health_handler r.now server.version (some r.database_ping) r.redis_ping
          (some s.limits.limiter) (some server.handler.registry) s.state.tracker in
      (
        record s { state = record s.state { tracker = tracker } },
        record {
          request_id = request_id_of r;
          headers = none;
          effects = [];
          content = health status body;
        },
      )

  -- The handler behind both middlewares: its state, its effects and what it writes.
  abbrev pub call_handler :
      Protected → AuthInfo → State fl.F → State fl.F × List (Effect fl.F) × Content fl.F
  call_handler chat info s =
      let o = chat_completions fl formats server.handler (incoming_as r info) s in
      (o.state, o.effects, completion o.reply)
  call_handler models info s =
      (s, [], listing (list_models (request_id_of r) (some info) server.handler.models))

  -- By the decision of the middleware that limits the rate.
  abbrev pub limited :
      Protected
      → AuthInfo
      → Option RateHeaders
      → List (Effect fl.F)
      → Decision
      → ServerState fl.F
      → ServerState fl.F × Response fl.F
  limited p info headers effects (reject e) s = (
    s,
    record {
      request_id = request_id_of r;
      headers = headers;
      effects = effects;
      content = denied e;
    },
  )
  limited p info headers effects serve_next s =
      let (state, later, content) = call_handler p info s.state in
      (
        record s { state = state },
        record {
          request_id = request_id_of r;
          headers = headers;
          effects = effects ++ later;
          content = content;
        },
      )

  -- By the verdict of the middleware that authenticates.
  abbrev pub guarded :
      Protected → List (Effect fl.F) → Verdict → ServerState fl.F → ServerState fl.F × Response fl.F
  guarded p effects (refuse e) s = (
    s,
    record { request_id = request_id_of r; headers = none; effects = effects; content = denied e },
  )
  guarded p effects (admit info) s =
      let answer =
        middleware (record { request_id = request_id_of r; audit = true; metrics = true })
          (some info) r.replies s.limits in
      limited p info answer.headers (effects ++ note_all answer.events) answer.decision
        (record s { limits = answer.limits })

  unfoldable pub serve_protected : Protected → ServerState fl.F → ServerState fl.F × Response fl.F
  serve_protected p s =
      let (cache, events, verdict) =
        authenticate (request_id_of r) true (lookup_via server.db r.reached r.now) server.hash_key
          s.cache r.authorization in
      guarded p (note_all events) verdict (record s { cache = cache })

  abbrev pub dispatch : Option Endpoint → ServerState fl.F → ServerState fl.F × Response fl.F
  dispatch none s =
      (s, record { request_id = request_id_of r; headers = none; effects = []; content = unrouted })
  dispatch (some health_check) s = check_health s
  dispatch (some (protected p)) s = serve_protected p s

  unfoldable pub serve : ServerState fl.F → ServerState fl.F × Response fl.F
  unfolding serve_protected
  serve s = dispatch (endpoint r.method r.path) s
