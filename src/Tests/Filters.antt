-- ===== src/Tests/Filters.antt =====
-- The content filters of internal/filter at concrete inputs. The searches of the regexp library and
-- the answers of the services stand as small functions.
use aegis_ai_gateway.Config.Settings.{InjectionFilterConfig, PiiServiceConfig}
use aegis_ai_gateway.Prelude.{
  pos, whole_numbers_order, ◌⊎◌, err, ok, [], refl, Result, none, true, ◌∷◌, ◌↔◌, str_eq, All,
  if◌then◌else◌, ℕ, Bool, whole_numbers, String, false, some, List, ◌≡◌,
}
use aegis_ai_gateway.Types.{AegisRequest}
use aegis_ai_gateway.Filter.{Action, pass, block, FilterResult, Filter, run, no_message}
use aegis_ai_gateway.Filter.Chain.{IsClear, run-IsClear_iff}
use aegis_ai_gateway.Filter.Secrets.{FindAll, Pattern, IsClean, secrets_pass_iff}
use aegis_ai_gateway.Filter.Injection.{Rule, SomeReaches, injection_block_iff}
use aegis_ai_gateway.Filter.Secrets
use aegis_ai_gateway.Filter.Injection
use aegis_ai_gateway.Filter.Pii
use aegis_ai_gateway.Filter.Policy
use aegis_ai_gateway.Filter.Pii.{ScanPii, IsCleared, pii_pass_iff}
use aegis_ai_gateway.Filter.Policy.{
  PolicyInput, PolicyTime, EvalReply, answer, bool_value, text_value, Value, Loaded, load_error,
  modules, load_all, Fails, policy_input, policy_pass_iff, failed_loads_keep, load,
}

abbrev request : AegisRequest ℕ
request = record {
  request_id = "r1";
  organization_id = "o";
  team_id = "t";
  user_id = "u";
  api_key_id = "k";
  classification = "INTERNAL";
  model = "gpt-4o";
  messages = record { role = "user"; content = "key AKIA"; name = "" } ∷ [];
  temperature = none;
  max_tokens = none;
  stream = false;
  top_p = none;
  stop = [];
  project = "";
  prefer_provider = "";
  trace_context = "";
  skip_cache = false;
  provider_type = "";
  received_at = 0;
  estimated_tokens = pos 0;
}

abbrev result_of : Action → FilterResult ℕ
result_of action = record {
  action = action;
  filter_name = "f";
  message = no_message;
  detections = 0;
  score = 0;
}

abbrev constant : Bool → Action → Filter ℕ
constant enabled action = record {
  name = "f";
  enabled = enabled;
  scan_request = λ req. result_of action;
}

-- One filter that is off, one that passes, one that blocks, and one after it.
abbrev chain : List (Filter ℕ)
chain = constant false block ∷ constant true pass ∷ constant true block ∷ constant true pass ∷ []

-- Finds the pattern "AKIA" in every text, and no other.
abbrev find_all : FindAll
find_all regex content = if str_eq regex "AKIA" then (4, 8) ∷ [] else []

abbrev pattern_of : String → Pattern
pattern_of regex = record { name = "key"; regex = regex }

abbrev rule : Rule ℕ
rule = record { name = "r"; regex = "AKIA"; severity = 9; category = "c" }

abbrev thresholds : InjectionFilterConfig ℕ
thresholds = record { enabled = true; block_threshold = 8; flag_threshold = 5 }

-- The service finds nothing in any text.
abbrev scan_pii : ScanPii
scan_pii content classification = some (record { detected = false; detections = 0 })

abbrev fail_closed : PiiServiceConfig
fail_closed = record {
  enabled = true;
  address = "";
  timeout = 0;
  max_retries = pos 0;
  fail_open = false;
}

-- A query is a text; the only bundle that compiles is a single module.
abbrev prepare : List (String × String) → Result String String
prepare ((name, src) ∷ []) = ok src
prepare _ = err "rego_parse_error"

abbrev eval : String → PolicyInput → EvalReply
eval query input = answer (bool_value true) (text_value "")

abbrev noon : PolicyTime
noon = record { hour = 12; day = "Monday" }

run-IsClear_iff_example : ((run chain request).1 ≡ none) ↔ All (IsClear request) chain
run-IsClear_iff_example = run-IsClear_iff request chain

secrets_pass_iff_example :
    (((Secrets.scan_request find_all) whole_numbers (pattern_of "AKIA" ∷ []) request).action ≡ pass)
    ↔ IsClean find_all (pattern_of "AKIA" ∷ []) request.messages
secrets_pass_iff_example = secrets_pass_iff find_all whole_numbers (pattern_of "AKIA" ∷ []) request

injection_block_iff_example :
    (((Injection.scan_request find_all whole_numbers) (rule ∷ []) thresholds request).action
      ≡ block)
    ↔ ((whole_numbers.le thresholds.block_threshold (whole_numbers.of_int (pos 0)) ≡ true)
        ⊎ SomeReaches find_all whole_numbers thresholds.block_threshold
            (rule ∷ [])
            request.messages)
injection_block_iff_example =
    injection_block_iff find_all whole_numbers whole_numbers_order (rule ∷ []) thresholds request

pii_pass_iff_example :
    (((Pii.scan_request whole_numbers) (some scan_pii) fail_closed request).action ≡ pass)
    ↔ All (IsCleared whole_numbers scan_pii request.classification) request.messages
pii_pass_iff_example = pii_pass_iff whole_numbers scan_pii fail_closed request refl

policy_pass_iff_example :
    (((Policy.scan_request prepare eval whole_numbers) (some "q") noon request).action ≡ pass) ↔ (
      (q : String) × (reason : Value) × ((some "q") ≡ some q)
      × (eval q (policy_input prepare eval noon request) ≡ answer (bool_value true) reason))
policy_pass_iff_example = policy_pass_iff prepare eval whole_numbers (some "q") noon request
