-- ===== src/Server/Revocation.antt =====
-- How long the gateway serves a key that the database no longer gives: the cache of Lookup behind the
-- whole router of cmd/gateway/main.go.
use aegis_ai_gateway.Prelude.{
  lookup, Float64, String, ℕ, ◌+◌, ◌≤◌, arith, Bool, true, false, Option, none, some, ok, List, [],
  ◌∷◌, ◌≡◌, refl, sym, ap, ◌∙◌, inl, inr, All, Bool-cases, str_eq, trim_prefix, subst,
}
use aegis_ai_gateway.Types.{AuthInfo}
use aegis_ai_gateway.Auth.{
  Db, Row, Cache, KeyMetadata, Verdict, admit, refuse, redis_cache_ttl, lookup_via, authenticate,
}
use aegis_ai_gateway.Auth.Guard.{HasToken}
use aegis_ai_gateway.Auth.Revocation.{IsGoneBy, lookup_via-IsGoneBy, lookup_key-miss, cached-none}
use aegis_ai_gateway.RateLimit.Middleware.{RateHeaders, Decision, serve_next, reject}
use aegis_ai_gateway.Gateway.{Effect}
use aegis_ai_gateway.Gateway.Parts.{Formats}
use aegis_ai_gateway.Server.{
  Protected, Endpoint, health_check, protected, endpoint, Request, Server, ServerState, limited,
  guarded, serve_protected, dispatch, serve, request_id_of,
}
use aegis_ai_gateway.Server.Entry.{is_completion, serve-Entered}

-- A property of the cache that a store's lookups keep is kept by the middleware.
authenticate-keeps :
    {C : Type 0} (P : C → Type 0) (id : String) (audit : Bool) (store : C → String → C × Row)
    (hash_key : String → String) (cache : C) (auth_header : String)
    → ((k : String) → P (store cache k).0)
    → P cache
    → P (authenticate id audit store hash_key cache auth_header).0
unfolding authenticate
authenticate-keeps P id audit store hash_key cache auth_header keeps h =
    let token = trim_prefix auth_header "Bearer " in
    elim (Bool-cases (str_eq auth_header "")) [
      | inl missing ↦ rw missing h
      | inr given ↦ elim (Bool-cases (str_eq token auth_header)) [
        | inl malformed ↦ rw (given, malformed) h
        | inr prefixed ↦ elim (Bool-cases (str_eq token "")) [
          | inl empty ↦ rw (given, prefixed, empty) h
          | inr token_given ↦ rw (given, prefixed, token_given) (keeps (hash_key token))
        ]
      ]
    ]

module _ (fl : Float64) (formats : Formats fl.F) (server : Server fl.F) where
  limited-cache :
      (r : Request fl.F) (p : Protected) (info : AuthInfo) (headers : Option RateHeaders)
      (effects : List (Effect fl.F)) (d : Decision) (s : ServerState fl.F)
      → (limited fl formats server r p info headers effects d s).0.cache ≡ s.cache
  limited-cache r p info headers effects (reject e) s = refl
  limited-cache r p info headers effects serve_next s = refl

  guarded-cache :
      (r : Request fl.F) (p : Protected) (effects : List (Effect fl.F)) (v : Verdict)
      (s : ServerState fl.F)
      → (guarded fl formats server r p effects v s).0.cache ≡ s.cache
  guarded-cache r p effects (refuse e) s = refl
  guarded-cache r p effects (admit info) s = limited-cache r p info _ _ _ _

  dispatch-IsGoneBy :
      (r : Request fl.F) (t : ℕ) (e : Option Endpoint) (s : ServerState fl.F)
      → r.now + redis_cache_ttl ≤ t
      → IsGoneBy t s.cache
      → IsGoneBy t (dispatch fl formats server r e s).0.cache
  unfolding serve_protected
  dispatch-IsGoneBy r t none s le h = h
  dispatch-IsGoneBy r t (some health_check) s le h = h
  dispatch-IsGoneBy r t (some (protected p)) s le h =
      subst (IsGoneBy t) (sym (guarded-cache r p _ _ _)) (
        authenticate-keeps (IsGoneBy t) (request_id_of r) true
          (lookup_via server.db r.reached r.now) server.hash_key s.cache r.authorization
          (λ k. lookup_via-IsGoneBy server.db r.reached r.now t k s.cache le h) h)

  -- Requests one after another.
  abbrev pub serve_all : ServerState fl.F → List (Request fl.F) → ServerState fl.F
  serve_all s [] = s
  serve_all s (r ∷ rs) = serve_all (serve fl formats server r s).0 rs

  serve_all-IsGoneBy :
      (t : ℕ) (rs : List (Request fl.F)) (s : ServerState fl.F)
      → All (λ r. r.now ≤ t) rs
      → IsGoneBy (t + redis_cache_ttl) s.cache
      → IsGoneBy (t + redis_cache_ttl) (serve_all s rs).cache
  unfolding serve
  serve_all-IsGoneBy t [] s u h = h
  serve_all-IsGoneBy t (r ∷ rs) s (le, u) h =
      serve_all-IsGoneBy t rs _ u (
        dispatch-IsGoneBy r (t + redis_cache_ttl) (endpoint r.method r.path) s (omega (arith, le))
          h)

  lookup_via-fresh :
      (db : Db) (reached : Bool) (now t : ℕ) (k : String) (cache : Cache)
      → t ≤ now
      → IsGoneBy t cache
      → (lookup_via db reached now cache k).1 ≡ db now k
  unfolding lookup_via
  lookup_via-fresh db false now t k cache le h = refl
  lookup_via-fresh db true now t k cache le h =
      ap (λ z. z.1) (lookup_key-miss db now k cache (cached-none now t k cache le h))

  -- After any requests up to a time, from a state with an empty cache, a completion or a stream at least
  -- five minutes later goes only to a key that the database itself gives at that time, whatever the
  -- requests before have left in the cache, the limits, the breakers and the prices.
  pub revoked_key_unserved :
      (s : ServerState fl.F) (rs : List (Request fl.F)) (t : ℕ) (r : Request fl.F)
      → s.cache ≡ []
      → All (λ q. q.now ≤ t) rs
      → t + redis_cache_ttl ≤ r.now
      → is_completion (serve fl formats server r (serve_all s rs)).1.content ≡ true
      → (token : String) × HasToken r.authorization token
        × ((meta : KeyMetadata) × (server.db r.now (server.hash_key token) ≡ ok (some meta)))
  unfolding lookup
  revoked_key_unserved s rs t r fresh u le g =
      let e = serve-Entered fl formats server r (serve_all s rs) g in
      let gone = serve_all-IsGoneBy t rs s u (rw fresh (λ k meta gone_at found. cc found)) in
      let asked =
        lookup_via-fresh server.db r.reached r.now (t + redis_cache_ttl) (server.hash_key e.token)
          (serve_all s rs).cache le gone in
      (e.token, e.has_token, (e.meta, sym asked ∙ e.found))
