-- ===== src/Cost.antt =====
-- internal/cost/calculator.go: the price of a request, with a cache of prices under a text key. The
-- configuration that `modelsCfg()` gives is an argument of each call, `none` where it is nil.
pub mod Keys
pub mod Laws
use Prim.Native.String.{◌++◌}
use aegis_ai_gateway.Prelude.{
  negsuc, ◌&&◌, ◌==◌, true, false, if◌then◌else◌, pos, Bool, none, insert, some, ℤ, lookup, String,
  Float64, Option, [], List,
}
use aegis_ai_gateway.Config.{ModelsConfig, PriceEntry}

pub record ModelPrice (F : Type 0) : Type 0 where
  pub input_per_token : F
  pub output_per_token : F

pub record Calculator (F : Type 0) : Type 0 where
  pub price_cache : List (String × ModelPrice F)

-- `fmt.Sprintf("%s:%s", provider, model)`
unfoldable pub cache_key : String → String → String
cache_key provider model = provider ++ (":" ++ model)

infixl 5 ◌>>=◌
abbrev ◌>>=◌ : {A B : Type 0} → Option A → (A → Option B) → Option B
none >>= f = none
some a >>= f = f a

module _ {F : Type 0} where
  unfoldable pub new_calculator : Calculator F
  new_calculator = record { price_cache = [] }

  abbrev pub price_of : PriceEntry F → ModelPrice F
  price_of e = record { input_per_token = e.input; output_per_token = e.output }

  -- The part of `getPrice` that reads the configuration.
  unfoldable pub configured_price :
      Option (ModelsConfig F) → String → String → Option (ModelPrice F)
  configured_price cfg provider model = do
    c ← cfg
    pricing ← c.pricing
    provider_pricing ← lookup provider pricing
    entry ← lookup model provider_pricing
    some (price_of entry)

  abbrev pub cached : String → Option (ModelPrice F) → Calculator F → Calculator F
  cached key none c = c
  cached key (some price) c = record c { price_cache = insert key price c.price_cache }

  -- The lock is given up between the look in the cache and the write: a write of another caller in
  -- between, under the same key, is overwritten.
  unfoldable pub get_price :
      Option (ModelsConfig F)
      → Calculator F
      → String
      → String
      → Calculator F × Option (ModelPrice F)
  get_price cfg c provider model =
      let found = configured_price cfg provider model in
      elim (lookup (cache_key provider model) c.price_cache) [
        | some price ↦ (c, some price)
        | none ↦ (cached (cache_key provider model) found c, found)
      ]

  unfoldable pub invalidate_cache : Calculator F → Calculator F
  invalidate_cache c = record { price_cache = [] }

module _ (fl : Float64) where
  abbrev pub is_zero : ℤ → Bool
  is_zero (pos n) = n == 0
  is_zero (negsuc n) = false

  abbrev pub total : ℤ → ℤ → Option (ModelPrice fl.F) → fl.F × Bool
  total prompt_tokens completion_tokens none = (fl.of_int (pos 0), false)
  total prompt_tokens completion_tokens (some price) =
      let thousand = fl.of_int (pos 1000) in
      let input_cost = fl.mul (fl.div (fl.of_int prompt_tokens) thousand) price.input_per_token in
      let output_cost =
        fl.mul (fl.div (fl.of_int completion_tokens) thousand) price.output_per_token in
      (fl.add input_cost output_cost, true)

  abbrev with_cost : Calculator fl.F → fl.F × Bool → Calculator fl.F × fl.F × Bool
  with_cost c (cost, found) = (c, cost, found)

  unfoldable pub calculate :
      Option (ModelsConfig fl.F)
      → Calculator fl.F
      → String
      → String
      → ℤ
      → ℤ
      → Calculator fl.F × fl.F × Bool
  calculate cfg c provider model prompt_tokens completion_tokens =
      let priced = get_price cfg c provider model in
      if is_zero prompt_tokens && is_zero completion_tokens
      then (c, fl.of_int (pos 0), true)
      else with_cost priced.0 (total prompt_tokens completion_tokens priced.1)
