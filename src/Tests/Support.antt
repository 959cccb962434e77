-- ===== src/Tests/Support.antt =====
-- What the gateway tells and keeps, and the keys it issues, at concrete inputs: internal/telemetry,
-- internal/storage, internal/audit, internal/auth and cmd/keygen.
use Prim.Native.String.{◌++◌}
use aegis_ai_gateway.Prelude.{
  ◌≢◌, ◌/◌, ℕ, ℤ, ◌<◌, Option, lookup, inl, inr, pos, negsuc, ◌+◌, ◌*◌, ◌≤◌, ◌≡◌, ◌↔◌, refl, String,
  List, [], ◌∷◌, All, true, false, none, some, Result, ok, err, arith, byte_length, take_bytes,
  whole_numbers, whole_numbers_sign,
}
use aegis_ai_gateway.Gateway.{UsageRecord, Effect, request_recorded}
use aegis_ai_gateway.Telemetry.{
  itoa, effect_updates, record_validation_failure, record_policy_reload, record_db_pool_stats,
}
use aegis_ai_gateway.Telemetry.Laws.{IsAccepted, metrics-AreAccepted}
use aegis_ai_gateway.Telemetry.Numbers.{min_int64, read_int, read_int-itoa_iff}
use aegis_ai_gateway.RateLimit.Middleware.{middleware}
use aegis_ai_gateway.Audit.{Caller, log_auth_failure}
use aegis_ai_gateway.Audit.Laws.{auth_failure_hides, Told, middleware-IsTold}
use aegis_ai_gateway.Auth.{KeyMetadata, admit, authenticate, cached, lookup_via}
use aegis_ai_gateway.Auth.Keys.{
  day, format_key, generate_key, random_string, key_prefix, parse_duration,
}
use aegis_ai_gateway.Auth.Keys.Laws.{parse_duration-days_iff}
use aegis_ai_gateway.Keygen.{
  inserted_row, nil_if_empty, database_url, Flags, Outside, Issued, add_duration, key_row, keygen,
}
use aegis_ai_gateway.Keygen.Access.{Holds, identity, issued_key_admitted_iff}
use aegis_ai_gateway.Keygen.Laws.{keygen_row}
use aegis_ai_gateway.Auth.Table.{ApiKey, lookup_db}
use mathlib.Core.List.Memᴰ
use aegis_ai_gateway.Tests.Access.{hash_key}
use aegis_ai_gateway.Tests.RateLimits.{setup, info, replies, limits}

-- A request that cost 3, with no completion.
abbrev told : Effect ℕ
told = request_recorded (record {
  org = "o";
  team = "t";
  model = "gpt";
  provider = "openai";
  status = "200";
  classification = "INTERNAL";
  duration_ms = 12;
  overhead_ms = 2;
  prompt_tokens = pos 7;
  completion_tokens = pos 0;
  cost_usd = 3;
})

metrics-AreAccepted_example :
    All (IsAccepted whole_numbers) (effect_updates whole_numbers told)
    × IsAccepted whole_numbers (record_validation_failure whole_numbers "model")
    × IsAccepted whole_numbers (record_policy_reload whole_numbers false)
    × All
        (IsAccepted whole_numbers)
        (record_db_pool_stats whole_numbers (pos 1) (pos 2) (pos 25) (pos 3))
metrics-AreAccepted_example =
    metrics-AreAccepted whole_numbers whole_numbers_sign told "model" false (pos 1) (pos 2) (pos 25)
      (pos 3)

read_int-itoa_iff_example : (read_int (itoa (negsuc 41)) ≡ negsuc 41) ↔ (negsuc 41 ≢ min_int64)
read_int-itoa_iff_example = read_int-itoa_iff (negsuc 41) (omega arith)

abbrev usage : UsageRecord ℕ
usage = record {
  request_id = "r1";
  organization_id = "o";
  team_id = "t";
  user_id = "u";
  api_key_id = "k";
  model_requested = "gpt";
  model_served = "gpt-4o";
  provider = "openai";
  classification = "INTERNAL";
  prompt_tokens = pos 7;
  completion_tokens = pos 1;
  total_tokens = pos 8;
  estimated_cost_usd = 3;
  duration_ms = 12;
  status_code = pos 200;
  project = "p";
  stream = false;
}

-- Two records of one organization, and one that another has.
abbrev entries : List (ℕ × UsageRecord ℕ)
entries =
    (10, usage)
    ∷ (20, record usage { organization_id = "p" })
    ∷ (30, record usage { stream = true })
    ∷ []

abbrev round : ℕ → ℕ
round cost = cost / 2 * 2

auth_failure_hides_example :
    log_auth_failure 5 "r1" "ip" "ua" (format_key "dev" "abcd") "expired"
    ≡ log_auth_failure 5 "r1" "ip" "ua" (format_key "dev" "wxyz") "expired"
auth_failure_hides_example =
    auth_failure_hides 5 "r1" "ip" "ua" "dev" "abcd" "wxyz" "expired" (omega arith)

abbrev caller : Caller
caller = record {
  request_id = "r1";
  organization_id = "o";
  team_id = "t";
  key_id = "k";
  ip = "ip";
  user_agent = "ua";
  redis_error = "timeout";
}

middleware-IsTold_example :
    Told 5 caller
      (middleware setup (some info) replies limits).decision
      (middleware setup (some info) replies limits).events
middleware-IsTold_example = middleware-IsTold 5 caller setup info replies limits

abbrev scan_days : String → Result String ℤ
scan_days s = ok (pos 365)

abbrev parse_go : String → Result String ℤ
parse_go s = err "no duration"

parse_duration-days_iff_example :
    (parse_duration scan_days parse_go "365d" ≡ ok (pos (365 * day))) ↔ (365 ≤ 106751)
parse_duration-days_iff_example = parse_duration-days_iff scan_days parse_go "365d" 365 refl refl

abbrev flags : Flags
flags = record {
  org = "o";
  team = "t";
  user = "";
  name = "ci";
  env = "dev";
  classification = "INTERNAL";
  expires = "365d";
  db_url = "postgres://h";
}

abbrev outside : Outside ℕ
outside = record {
  rand = λ i. ok 0;
  hash_key = hash_key;
  scan_days = scan_days;
  parse_go = parse_go;
  getenv = λ name. "";
  now = 5;
  connects = λ url. true;
  insert = λ row. ok "id";
}

abbrev raw_key : String
raw_key = "aegis-dev-aaaaaaaaaaaaaaaaaaaaaaaaaaaaaaaa"

abbrev issued : Issued ℕ
issued = record {
  row = key_row outside flags "h" (key_prefix raw_key) (5 + 365 * day);
  key_id = "id";
  raw_key = raw_key;
}

is_issued : keygen outside flags ≡ ok issued
unfolding keygen generate_key random_string format_key parse_duration database_url
is_issued = refl

keygen_row_example :
    (random : String) × (dur : ℤ) × (issued.raw_key ≡ format_key flags.env random)
    × (byte_length random ≡ 32)
    × (parse_duration outside.scan_days outside.parse_go flags.expires ≡ ok dur)
    × (issued.row
        ≡ key_row outside flags
            (outside.hash_key issued.raw_key)
            (format_key flags.env (take_bytes 8 random))
            (add_duration outside.now dur))
keygen_row_example = keygen_row outside flags issued (refl, (refl, (refl, tt))) is_issued

-- The row of the key, alone in its table.
abbrev row : ApiKey
row = record {
  id = "id";
  key_hash = "h";
  key_prefix = key_prefix raw_key;
  organization_id = "o";
  team_id = "t";
  user_id = none;
  name = "ci";
  status = "active";
  max_classification = "INTERNAL";
  allowed_models = "[]";
  rpm_limit = none;
  tpm_limit = none;
  daily_spend_limit_cents = none;
  expires_at = 5 + 365 * day;
}

abbrev keys : ℕ → Result String (List ApiKey)
keys now = ok (row ∷ [])

abbrev unmarshal : String → List String
unmarshal json = []

holds : Holds outside flags unmarshal issued 6 keys row
unfolding inserted_row nil_if_empty
holds = record {
  is_stored = refl;
  rows = row ∷ [];
  given = refl;
  there = Memᴰ.head refl;
  unique = λ r at e. elim (Memᴰ.cases_cons at) [ inl this ↦ this | inr others ↦ elim others [ ] ];
}

no_entry : ◌≡◌ {A = Option KeyMetadata} (cached 6 "h" []) none
unfolding lookup
no_entry = refl

issued_key_admitted_iff_example :
    (((authenticate "r1" true
          (lookup_via (lookup_db unmarshal keys) true 6)
          hash_key
          []
          ("Bearer " ++ raw_key)).2
        ≡ admit (identity outside flags unmarshal issued))
      ↔ (6 < row.expires_at))
    × ((dur : ℤ) × (parse_duration scan_days parse_go flags.expires ≡ ok dur)
        × (row.expires_at ≡ add_duration 5 dur))
issued_key_admitted_iff_example =
    issued_key_admitted_iff outside flags unmarshal issued is_issued 6 keys row holds true []
      no_entry "r1" true
