-- ===== src/Auth.antt =====
-- internal/auth: the key store of store.go with its Redis cache, and the middleware of middleware.go.
-- `Db` is what the query of `lookupDB` answers for a hash at a time; `hash_key` is `HashKey`, SHA-256.
pub mod Revocation
pub mod Guard
pub mod Keys
pub mod Table
use aegis_ai_gateway.Prelude.{
  trim_prefix, true, false, ◌+◌, insert, str_eq, leb, ◌==◌, [], ok, none, ℤ, if◌then◌else◌, lookup,
  Option, Bool, err, some, Result, ℕ, List, String,
}
use aegis_ai_gateway.Types.{AuthInfo, Classification}
use aegis_ai_gateway.Http.{ErrorResponse, plain, write_auth_error, write_internal_error}
use aegis_ai_gateway.Events.{Event, when, auth_failure}

pub record KeyMetadata : Type 0 where
  pub id : String
  pub organization_id : String
  pub team_id : String
  pub user_id : String
  pub name : String
  pub max_classification : Classification
  pub allowed_models : List String
  pub rpm_limit : Option ℤ
  pub tpm_limit : Option ℤ
  pub daily_spend_limit_cents : Option ℤ
  pub expires_at : ℕ

-- `redisCacheTTL`, in nanoseconds
abbrev pub redis_cache_ttl : ℕ
redis_cache_ttl = 300_000_000_000

-- An error of the query, no active row, or the row's metadata.
abbrev pub Row : Type 0
Row = Result String (Option KeyMetadata)

abbrev pub Db : Type 0
Db = ℕ → String → Row

-- What Redis holds under a hash: the metadata and the time from which it is gone.
abbrev pub Cache : Type 0
Cache = List (String × (KeyMetadata × ℕ))

-- `Get` of an entry that is there and not yet gone. Redis gives back what was set (its text is read
-- again without an error).
abbrev pub live_entry : ℕ → Option (KeyMetadata × ℕ) → Option KeyMetadata
live_entry now none = none
live_entry now (some (meta, gone_at)) = if leb gone_at now then none else some meta

abbrev pub cached : ℕ → String → Cache → Option KeyMetadata
cached now key_hash cache = live_entry now (lookup key_hash cache)

-- `Set` of a row that was found.
abbrev pub remember : ℕ → String → Row → Cache → Cache
remember now key_hash (err e) cache = cache
remember now key_hash (ok none) cache = cache
remember now key_hash (ok (some meta)) cache = insert key_hash (meta, now + redis_cache_ttl) cache

-- `Lookup` with Redis in reach.
unfoldable pub lookup_key : Db → ℕ → Cache → String → Cache × Row
lookup_key db now cache key_hash = elim (cached now key_hash cache) [
  | some meta ↦ (cache, ok (some meta))
  | none ↦ (remember now key_hash (db now key_hash) cache, db now key_hash)
]

-- `Lookup`. Without Redis, or with Redis out of reach (`Get` fails, and the error of `Set` is not looked
-- at), the database alone answers.
unfoldable pub lookup_via : Db → (reached : Bool) → ℕ → Cache → String → Cache × Row
unfolding lookup_key
lookup_via db false now cache key_hash = (cache, db now key_hash)
lookup_via db true now cache key_hash = lookup_key db now cache key_hash

pub data Verdict : Type 0 where
  admit : AuthInfo → Verdict
  refuse : ErrorResponse → Verdict

abbrev pub info_of : KeyMetadata → AuthInfo
info_of meta = record {
  key_id = meta.id;
  organization_id = meta.organization_id;
  team_id = meta.team_id;
  user_id = meta.user_id;
  max_classification = meta.max_classification;
  allowed_models = meta.allowed_models;
  rpm_limit = meta.rpm_limit;
  tpm_limit = meta.tpm_limit;
  daily_spend_limit_cents = meta.daily_spend_limit_cents;
}

-- The tests of what `store.Lookup` returned.
unfoldable pub judge_row : String → Bool → String → Row → List Event × Verdict
judge_row request_id audit token (err e) = (
  when audit (auth_failure token "database lookup error"),
  refuse (write_internal_error request_id (plain "Internal error during authentication")),
)
judge_row request_id audit token (ok none) = (
  when audit (auth_failure token "api key not found"),
  refuse (write_auth_error request_id (plain "Invalid API key")),
)
judge_row request_id audit token (ok (some meta)) = ([], admit (info_of meta))

-- The handler. `store` is `Lookup` at the time of the request; the middleware passes its cache on.
unfoldable pub authenticate :
    {C : Type 0}
    → String
    → Bool
    → (C → String → C × Row)
    → (String → String)
    → C
    → String
    → C × List Event × Verdict
unfolding judge_row
authenticate request_id audit store hash_key cache auth_header =
    let token = trim_prefix auth_header "Bearer " in
    let (cache', row) = store cache (hash_key token) in
    if str_eq auth_header ""
    then (
      cache,
      when audit (auth_failure "" "missing authorization header"),
      refuse (
          write_auth_error request_id
            (plain "Missing Authorization header. Use: Authorization: Bearer <api-key>")),
    )
    else if str_eq token auth_header
    then (
      cache,
      when audit (auth_failure "" "invalid authorization format"),
      refuse (
          write_auth_error request_id
            (plain "Invalid Authorization format. Use: Authorization: Bearer <api-key>")),
    )
    else if str_eq token ""
    then (
      cache,
      when audit (auth_failure "" "empty api key"),
      refuse (write_auth_error request_id (plain "Empty API key")),
    )
    else (let (events, verdict) = judge_row request_id audit token row in (cache', events, verdict))
