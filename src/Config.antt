-- ===== src/Config.antt =====
-- internal/config/models.go and providers.go: the routes of each model, its prices, and the
-- providers. `F` stands for float64.
pub mod Dsn
pub mod Loader
pub mod Settings
use aegis_ai_gateway.Prelude.{ℕ, ℤ, String, List, Option}

pub record ProviderRoute : Type 0 where
  pub provider : String
  pub model : String
  pub deployment : String
  pub endpoint : String
  pub classification_ceiling : String

pub record ModelMapping : Type 0 where
  pub display_name : String
  pub primary : ProviderRoute
  pub fallback : List ProviderRoute

pub record PriceEntry (F : Type 0) : Type 0 where
  pub input : F
  pub output : F

-- `none` is a nil map.
pub record ModelsConfig (F : Type 0) : Type 0 where
  pub models : List (String × ModelMapping)
  pub pricing : Option (List (String × List (String × PriceEntry F)))

pub record ProviderConfig : Type 0 where
  pub type_name : String
  pub base_url : String
  pub api_key : String
  pub api_version : String
  pub max_concurrent : ℤ
  pub timeout : ℕ
  pub headers : List (String × String)
