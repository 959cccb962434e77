-- ===== src/Keygen.antt =====
-- cmd/keygen/main.go, which issues a key, and cmd/migrate/main.go. The flags, the environment, the random
-- numbers, SHA-256, the clock and the database come from outside; an exit by log.Fatalf or os.Exit is 1.
pub mod Access
pub mod Laws
use Prim.Native.String.{◌++◌}
use aegis_ai_gateway.Prelude.{
  ℕ, ℤ, pos, negsuc, zero, suc, ◌+◌, ◌-◌, String, List, [], ◌∷◌, Bool, true, false, ◌&&◌, ◌||◌, not,
  Option, none, some, Result, ok, err, if◌then◌else◌, str_eq, ltb_ℤ,
}
use aegis_ai_gateway.Auth.Table.{ApiKey}
use aegis_ai_gateway.Auth.Keys.{generate_key, key_prefix, parse_duration}
use aegis_ai_gateway.Audit.{nullable}
use aegis_ai_gateway.Database.{Column, text, null, time, read_nullable}

unfoldable pub env_or_default : (String → String) → String → String → String
env_or_default getenv key default = let v = getenv key in if str_eq v "" then default else v

-- The flag, DATABASE_URL, or the address that is made of the DB_ variables; both programs have these lines.
unfoldable pub database_url : (String → String) → String → String
unfolding env_or_default
database_url getenv db_url =
    let given = if str_eq db_url "" then getenv "DATABASE_URL" else db_url in
    if str_eq given ""
    then "postgres://"
      ++ (env_or_default getenv "DB_USER" "aegis"
          ++ (":"
              ++ (env_or_default getenv "DB_PASSWORD" "aegis-dev"
                  ++ ("@"
                      ++ (env_or_default getenv "DB_HOST" "localhost"
                          ++ (":"
                              ++ (env_or_default getenv "DB_PORT" "5432"
                                  ++ ("/"
                                      ++ (env_or_default getenv "DB_NAME" "aegis"
                                          ++ "?sslmode=disable")))))))))
    else given

unfoldable pub nil_if_empty : String → Option String
nil_if_empty s = if str_eq s "" then none else some s

pub record Flags : Type 0 where
  pub org : String
  pub team : String
  pub user : String
  pub name : String
  pub env : String
  pub classification : String
  pub expires : String
  pub db_url : String

pub record Outside (F : Type 0) : Type 0 where
  pub rand : ℕ → Result String ℕ
  pub hash_key : String → String
  pub scan_days : String → Result String ℤ
  pub parse_go : String → Result String ℤ
  pub getenv : String → String
  pub now : ℕ
  pub connects : String → Bool
  pub insert : List (Column F) → Result String String

-- What is issued: the row that is inserted, and what is printed of it: its id and the key.
pub record Issued (F : Type 0) : Type 0 where
  pub row : List (Column F)
  pub key_id : String
  pub raw_key : String

-- The row of api_keys that the INSERT makes of its arguments, with the id that the database chooses and the
-- defaults of migrations/001_create_api_keys.up.sql in the columns that it does not name.
unfoldable pub inserted_row : {F : Type 0} → String → List (Column F) → Option ApiKey
inserted_row id
      (text key_hash
        ∷ text prefix
        ∷ text org
        ∷ text team
        ∷ user
        ∷ text name
        ∷ text classification
        ∷ text models
        ∷ time expires_at
        ∷ []) =
    some (record {
      id = id;
      key_hash = key_hash;
      key_prefix = prefix;
      organization_id = org;
      team_id = team;
      user_id = read_nullable user;
      name = name;
      status = "active";
      max_classification = classification;
      allowed_models = models;
      rpm_limit = none;
      tpm_limit = none;
      daily_spend_limit_cents = none;
      expires_at = expires_at;
    })
inserted_row id _ = none

-- `time.Now().Add(dur)`
abbrev pub add_duration : ℕ → ℤ → ℕ
add_duration now (pos d) = now + d
add_duration now (negsuc d) = now - suc d

module _ {F : Type 0} (w : Outside F) (flags : Flags) where
  -- The arguments of the INSERT, in the order of its columns; the allowed models are an empty array.
  abbrev pub key_row : (key_hash prefix : String) → ℕ → List (Column F)
  key_row key_hash prefix expires_at =
      text key_hash
      ∷ text prefix
      ∷ text flags.org
      ∷ text flags.team
      ∷ nullable (nil_if_empty flags.user)
      ∷ text flags.name
      ∷ text flags.classification
      ∷ text "[]"
      ∷ time expires_at
      ∷ []

  abbrev pub inserted : List (Column F) → String → Result String String → Result ℕ (Issued F)
  inserted row raw_key (err e) = err 1
  inserted row raw_key (ok key_id) = ok (record { row = row; key_id = key_id; raw_key = raw_key })

  abbrev pub with_expiry : String → Result String ℤ → Result ℕ (Issued F)
  with_expiry raw_key (err e) = err 1
  with_expiry raw_key (ok dur) =
      let row = key_row (w.hash_key raw_key) (key_prefix raw_key) (add_duration w.now dur) in
      if w.connects (database_url w.getenv flags.db_url)
      then inserted row raw_key (w.insert row)
      else err 1

  abbrev pub with_key : Result String String → Result ℕ (Issued F)
  with_key (err e) = err 1
  with_key (ok raw_key) = with_expiry raw_key (parse_duration w.scan_days w.parse_go flags.expires)

  -- `main` of keygen: the exit code, or what is issued.
  unfoldable pub keygen : Result ℕ (Issued F)
  keygen =
      if str_eq flags.org "" || str_eq flags.team "" || str_eq flags.name ""
      then err 1
      else with_key (generate_key flags.env w.rand)

-- What is asked of the migrator.
pub data Migration : Type 0 where
  up_all down_all : Migration
  steps : ℤ → Migration

abbrev pub negated : ℤ → ℤ
negated (pos zero) = pos 0
negated (pos (suc n)) = negsuc n
negated (negsuc n) = pos (suc n)

-- The `switch` on the direction; `none` is an invalid one.
unfoldable pub migration : String → ℤ → Option Migration
migration direction n =
    if str_eq direction "up"
    then some (if ltb_ℤ (pos 0) n then steps n else up_all)
    else if str_eq direction "down"
    then some (if ltb_ℤ (pos 0) n then steps (negated n) else down_all)
    else none

-- The migrator is made, and run: with nothing to change, without an error, or with another.
pub data Migrated : Type 0 where
  no_change migrated failed : Migrated

abbrev pub exit_of : Migrated → ℕ
exit_of no_change = 0
exit_of migrated = 0
exit_of failed = 1

abbrev pub run_migration : (Migration → Migrated) → Option Migration → ℕ
run_migration run none = 1
run_migration run (some m) = exit_of (run m)

-- `main` of migrate: its exit code.
unfoldable pub migrate :
    (String → String) → (String → Bool) → (Migration → Migrated) → String → ℤ → String → ℕ
unfolding migration
migrate getenv opens run direction n db_url =
    if opens (database_url getenv db_url) then run_migration run (migration direction n) else 1
