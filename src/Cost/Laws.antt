-- ===== src/Cost/Laws.antt =====
-- What the price cache of internal/cost/calculator.go preserves, and where it does not.
use aegis_ai_gateway.Prelude.{
  ◌∷◌, [], refl, [], eq_refl, ap, none, subst, ◌∙◌, lookup-insert, eq_iff, sym, str_eq, Bool-cases,
  inr, inl, some, map, Option-cases, All, ◌≡◌, String, List, Option, lookup,
}
use text.Mathlib.TextLemmas.{append_assoc as text_append_assoc}
use aegis_ai_gateway.Config.{ModelsConfig}
use aegis_ai_gateway.Cost.{
  none, some, List, Option, lookup, ModelPrice, Calculator, cache_key, configured_price, get_price,
  invalidate_cache, new_calculator, cached,
}
use aegis_ai_gateway.Cost.Keys.{IsColonFree, cache_key_injective}
use Prim.Native.String.{◌++◌}

cache_key-shift : (p a m : String) → cache_key (p ++ (":" ++ a)) m ≡ cache_key p (a ++ (":" ++ m))
unfolding cache_key
cache_key-shift p a m =
    text_append_assoc p (":" ++ a) (":" ++ m)
    ∙ ap (λ z. p ++ z) (text_append_assoc ":" a (":" ++ m))

module _ {F : Type 0} where
  -- Every price in the cache, under a provider without a colon, is the configured one.
  abbrev pub IsFaithful : Option (ModelsConfig F) → Calculator F → Type 0
  IsFaithful cfg c =
      (p m : String) (price : ModelPrice F)
      → IsColonFree p
      → lookup (cache_key p m) c.price_cache ≡ some price
      → configured_price cfg p m ≡ some price

  get_price-hit :
      (cfg : Option (ModelsConfig F)) (c : Calculator F) (p m : String) (price : ModelPrice F)
      → lookup (cache_key p m) c.price_cache ≡ some price
      → get_price cfg c p m ≡ (c, some price)
  unfolding get_price
  get_price-hit cfg c p m price hit = rw (hit, get_price) refl

  get_price-miss :
      (cfg : Option (ModelsConfig F)) (c : Calculator F) (p m : String)
      → lookup (cache_key p m) c.price_cache ≡ none
      → get_price cfg c p m
        ≡ (cached (cache_key p m) (configured_price cfg p m) c, configured_price cfg p m)
  unfolding get_price
  get_price-miss cfg c p m missing = rw (missing, get_price) refl

  get_price-found :
      (cfg : Option (ModelsConfig F)) (c : Calculator F) (p m : String)
      → IsColonFree p
      → IsFaithful cfg c
      → (get_price cfg c p m).1 ≡ configured_price cfg p m
  get_price-found cfg c p m free h = elim (Option-cases (lookup (cache_key p m) c.price_cache)) [
    | inl missing ↦ ap (λ z. z.1) (get_price-miss cfg c p m missing)
    | inr (price, hit) ↦
        ap (λ z. z.1) (get_price-hit cfg c p m price hit) ∙ sym (h p m price free hit)
  ]

  cached-IsFaithful :
      (cfg : Option (ModelsConfig F)) (c : Calculator F) (p m : String)
      (found : Option (ModelPrice F))
      → IsColonFree p
      → configured_price cfg p m ≡ found
      → IsFaithful cfg c
      → IsFaithful cfg (cached (cache_key p m) found c)
  cached-IsFaithful cfg c p m none free same h q n other qfree hit = h q n other qfree hit
  cached-IsFaithful cfg c p m (some price) free same h q n other qfree hit =
      elim (Bool-cases (str_eq (cache_key p m) (cache_key q n))) [
        | inl agree ↦
            let (pq, mn) = cache_key_injective p q m n free qfree ((eq_iff _ _).0 agree) in
            cc (
              pq,
              mn,
              same,
              hit,
              lookup-insert (cache_key p m) (cache_key q n) price c.price_cache,
              agree,
            )
        | inr differ ↦ h q n other qfree (
            sym (lookup-insert (cache_key p m) (cache_key q n) price c.price_cache ∙ rw differ refl)
            ∙ hit)
      ]

  get_price-IsFaithful :
      (cfg : Option (ModelsConfig F)) (c : Calculator F) (p m : String)
      → IsColonFree p
      → IsFaithful cfg c
      → IsFaithful cfg (get_price cfg c p m).0
  get_price-IsFaithful cfg c p m free h =
      elim (Option-cases (lookup (cache_key p m) c.price_cache)) [
        | inl missing ↦
            subst (IsFaithful cfg) (sym (ap (λ z. z.0) (get_price-miss cfg c p m missing)))
              (cached-IsFaithful cfg c p m _ free refl h)
        | inr (price, hit) ↦
            subst (IsFaithful cfg) (sym (ap (λ z. z.0) (get_price-hit cfg c p m price hit))) h
      ]

  -- The prices that a sequence of calls gives, for one configuration.
  abbrev pub prices :
      Option (ModelsConfig F) → Calculator F → List (String × String) → List (Option (ModelPrice F))
  prices cfg c [] = []
  prices cfg c (k ∷ calls) =
      let (c', price) = get_price cfg c k.0 k.1 in price ∷ prices cfg c' calls

  prices-configured :
      (cfg : Option (ModelsConfig F)) (c : Calculator F) (calls : List (String × String))
      → IsFaithful cfg c
      → All (λ k. IsColonFree k.0) calls
      → prices cfg c calls ≡ map (λ k. configured_price cfg k.0 k.1) calls
  prices-configured cfg c [] h u = refl
  prices-configured cfg c (k ∷ calls) h (free, rest) =
      ap (λ z. z ∷ prices cfg (get_price cfg c k.0 k.1).0 calls)
        (get_price-found cfg c k.0 k.1 free h)
      ∙ ap (λ z. configured_price cfg k.0 k.1 ∷ z)
          (prices-configured cfg (get_price cfg c k.0 k.1).0 calls
            (get_price-IsFaithful cfg c k.0 k.1 free h) rest)

  -- For one configuration and providers without a colon in their names, a new calculator gives the
  -- configured price on every one of a sequence of calls: its cache shows in no answer.
  pub cache_transparent :
      (cfg : Option (ModelsConfig F)) (calls : List (String × String))
      → All (λ k. IsColonFree k.0) calls
      → prices cfg new_calculator calls ≡ map (λ k. configured_price cfg k.0 k.1) calls
  unfolding new_calculator lookup
  cache_transparent cfg calls free =
      prices-configured cfg new_calculator calls (λ p m price u hit. cc hit) free

  get_price-lookup :
      (cfg : Option (ModelsConfig F)) (c : Calculator F) (p m : String) (price : ModelPrice F)
      → (get_price cfg c p m).1 ≡ some price
      → lookup (cache_key p m) (get_price cfg c p m).0.price_cache ≡ some price
  get_price-lookup cfg c p m price h = elim (Option-cases (lookup (cache_key p m) c.price_cache)) [
    | inl missing ↦
        let done = get_price-miss cfg c p m missing in
        let found = sym (ap (λ z. z.1) done) ∙ h in
        ap (λ z. lookup (cache_key p m) z.0.price_cache) done
        ∙ ap (λ z. lookup (cache_key p m) (cached (cache_key p m) z c).price_cache) found
        ∙ (lookup-insert (cache_key p m) (cache_key p m) price c.price_cache
            ∙ rw (eq_refl (cache_key p m)) refl)
    | inr (other, hit) ↦
        let done = get_price-hit cfg c p m other hit in
        ap (λ z. lookup (cache_key p m) z.0.price_cache) done ∙ hit ∙ sym (ap (λ z. z.1) done) ∙ h
  ]

  -- A price once given is given again whatever the configuration has become, until the cache is
  -- invalidated; then the next call gives the price of the new configuration.
  pub stale_until_invalidated :
      (old new : Option (ModelsConfig F)) (c : Calculator F) (p m : String) (price : ModelPrice F)
      → (get_price old c p m).1 ≡ some price
      → ((get_price new (get_price old c p m).0 p m).1 ≡ some price)
        × ((get_price new (invalidate_cache (get_price old c p m).0) p m).1
            ≡ configured_price new p m)
  unfolding invalidate_cache lookup
  stale_until_invalidated old new c p m price h = (
    ap (λ z. z.1)
        (get_price-hit new (get_price old c p m).0 p m price (get_price-lookup old c p m price h)),
    ap (λ z. z.1) (get_price-miss new (invalidate_cache (get_price old c p m).0) p m refl),
  )

  -- A provider's name and a model's that join to the same key give each other's price: once the price
  -- of model `m` of provider `p:a` is cached, it is what provider `p` gives for its model `a:m`.
  pub keys_collide :
      (cfg : Option (ModelsConfig F)) (c : Calculator F) (p a m : String) (price : ModelPrice F)
      → (get_price cfg c (p ++ (":" ++ a)) m).1 ≡ some price
      → (get_price cfg (get_price cfg c (p ++ (":" ++ a)) m).0 p (a ++ (":" ++ m))).1 ≡ some price
  keys_collide cfg c p a m price h =
      ap (λ z. z.1)
        (get_price-hit cfg (get_price cfg c (p ++ (":" ++ a)) m).0 p (a ++ (":" ++ m)) price (
          subst (λ k. lookup k (get_price cfg c (p ++ (":" ++ a)) m).0.price_cache ≡ some price)
            (cache_key-shift p a m) (get_price-lookup cfg c (p ++ (":" ++ a)) m price h)))
