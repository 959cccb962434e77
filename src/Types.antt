-- ===== src/Types.antt =====
-- internal/types: classifications, the canonical request and response, and AuthInfo of
-- internal/auth/context.go. `F` stands for float64, a pointer to a number is an Option.
pub mod Lattice
use aegis_ai_gateway.Prelude.{
  ℕ, String, List, [], Option, some, none, Bool, ◌||◌, ℤ, pos, negsuc, leb_ℤ, if◌then◌else◌, str_eq,
}

-- `type Classification string`: any text may stand in it.
abbrev pub Classification : Type 0
Classification = String

abbrev pub class_public : Classification
class_public = "PUBLIC"

abbrev pub class_internal : Classification
class_internal = "INTERNAL"

abbrev pub class_confidential : Classification
class_confidential = "CONFIDENTIAL"

abbrev pub class_restricted : Classification
class_restricted = "RESTRICTED"

unfoldable pub level : Classification → ℤ
level c =
    if str_eq c class_public
    then pos 0
    else if str_eq c class_internal
    then pos 1
    else if str_eq c class_confidential
    then pos 2
    else if str_eq c class_restricted
    then pos 3
    else negsuc 0

unfoldable pub allows : Classification → Classification → Bool
allows c content = leb_ℤ (level content) (level c)

unfoldable pub parse_classification : String → Option Classification
parse_classification s =
    if str_eq s class_public
      || str_eq s class_internal
      || str_eq s class_confidential
      || str_eq s class_restricted
    then some s
    else none

pub record Message : Type 0 where
  pub role : String
  pub content : String
  pub name : String

pub record AegisRequest (F : Type 0) : Type 0 where
  pub request_id : String
  pub organization_id : String
  pub team_id : String
  pub user_id : String
  pub api_key_id : String
  pub classification : Classification
  pub model : String
  pub messages : List Message
  pub temperature : Option F
  pub max_tokens : Option ℤ
  pub stream : Bool
  pub top_p : Option F
  pub stop : List String
  pub project : String
  pub prefer_provider : String
  pub trace_context : String
  pub skip_cache : Bool
  pub provider_type : String
  pub received_at : ℕ
  pub estimated_tokens : ℤ

pub record Choice : Type 0 where
  pub index : ℤ
  pub message : Message
  pub finish_reason : String

pub record Usage : Type 0 where
  pub prompt_tokens : ℤ
  pub completion_tokens : ℤ
  pub total_tokens : ℤ

-- Without `FilterActions`, which nothing sets.
pub record AegisResponse (F : Type 0) : Type 0 where
  pub request_id : String
  pub model : String
  pub provider : String
  pub choices : List Choice
  pub usage : Usage
  pub estimated_cost_usd : F

-- internal/auth/context.go
pub record AuthInfo : Type 0 where
  pub key_id : String
  pub organization_id : String
  pub team_id : String
  pub user_id : String
  pub max_classification : Classification
  pub allowed_models : List String
  pub rpm_limit : Option ℤ
  pub tpm_limit : Option ℤ
  pub daily_spend_limit_cents : Option ℤ
