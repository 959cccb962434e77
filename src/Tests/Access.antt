-- ===== src/Tests/Access.antt =====
-- Authentication (internal/auth) at concrete inputs, with a length for the hash.
use Prim.Native.String.{[]}
use aegis_ai_gateway.Prelude.{◌↔◌, some, ltb, ◌≡◌, none, ok, if◌then◌else◌, true, String, []}
use aegis_ai_gateway.Auth.{KeyMetadata, Db, Cache, Row, authenticate, admit, info_of}
use aegis_ai_gateway.Auth.Guard.{HasToken, authenticate-admit_iff}

abbrev pub key : KeyMetadata
key = record {
  id = "k1";
  organization_id = "o";
  team_id = "t";
  user_id = "u";
  name = "ci";
  max_classification = "INTERNAL";
  allowed_models = [];
  rpm_limit = none;
  tpm_limit = none;
  daily_spend_limit_cents = none;
  expires_at = 1_000;
}

-- The key is active until 500.
abbrev db : Db
db now key_hash = if ltb now 500 then ok (some key) else ok none

abbrev pub store : Cache → String → Cache × Row
store cache key_hash = (cache, db 10 key_hash)

abbrev pub hash_key : String → String
hash_key token = "h"

authenticate-admit_iff_example :
    ((authenticate "r1" true store hash_key [] "Bearer abc").2 ≡ admit (info_of key)) ↔ (
      (token : String) × HasToken "Bearer abc" token
      × ((meta : KeyMetadata) × ((store [] (hash_key token)).1 ≡ ok (some meta))
          × ((info_of key) ≡ info_of meta)))
authenticate-admit_iff_example =
    authenticate-admit_iff "r1" true store hash_key [] "Bearer abc" (info_of key)
