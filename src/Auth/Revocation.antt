-- ===== src/Auth/Revocation.antt =====
-- How long a key that the database no longer gives is still accepted (internal/auth/store.go).
use aegis_ai_gateway.Prelude.{
  true, false, Bool, if◌then◌else◌, sym, str_eq, subst, inr, inl, Bool-cases, ◌∙◌, ap, refl, Option,
  Option-cases, eq_refl, lookup-insert, none, ◌<◌, arith, [], some, ok, ◌≤◌, All, ◌∷◌, ◌+◌, ◌≡◌,
  String, lookup, ℕ, List, insert,
}
use aegis_ai_gateway.Auth.{
  lookup_via, Bool, str_eq, Option, err, some, ok, String, KeyMetadata, redis_cache_ttl, Row, Db,
  Cache, cached, remember, lookup_key,
}

-- Every entry is gone by the time.
abbrev pub IsGoneBy : ℕ → Cache → Type 0
IsGoneBy t cache =
    (k : String) (meta : KeyMetadata) (gone_at : ℕ)
    → lookup k cache ≡ some (meta, gone_at)
    → gone_at ≤ t

abbrev gone_of : Option (KeyMetadata × ℕ) → ℕ
gone_of none = 0
gone_of (some e) = e.1

remember-IsGoneBy :
    (now t : ℕ) (k : String) (row : Row) (cache : Cache)
    → now + redis_cache_ttl ≤ t
    → IsGoneBy t cache
    → IsGoneBy t (remember now k row cache)
remember-IsGoneBy now t k (err e) cache le h j meta gone_at e' = h j meta gone_at e'
remember-IsGoneBy now t k (ok none) cache le h j meta gone_at e' = h j meta gone_at e'
remember-IsGoneBy now t k (ok (some m)) cache le h j meta gone_at e' =
    let seen = lookup-insert k j (m, now + redis_cache_ttl) cache in
    elim (Bool-cases (str_eq k j)) [
      | inl same ↦ omega (
        arith,
        le,
        ap gone_of (
            sym
              (seen ∙ ap (λ b. if b then some (m, now + redis_cache_ttl) else lookup j cache) same)
            ∙ e'),
      )
      | inr other ↦ h j meta gone_at (
          sym (seen ∙ ap (λ b. if b then some (m, now + redis_cache_ttl) else lookup j cache) other)
          ∙ e')
    ]

lookup_key-hit :
    (db : Db) (now : ℕ) (k : String) (cache : Cache) (meta : KeyMetadata)
    → cached now k cache ≡ some meta
    → lookup_key db now cache k ≡ (cache, ok (some meta))
unfolding lookup_key
lookup_key-hit db now k cache meta hit = rw (hit, lookup_key) refl

pub lookup_key-miss :
    (db : Db) (now : ℕ) (k : String) (cache : Cache)
    → cached now k cache ≡ none
    → lookup_key db now cache k ≡ (remember now k (db now k) cache, db now k)
unfolding lookup_key
lookup_key-miss db now k cache missing = rw (missing, lookup_key) refl

lookup_key-IsGoneBy :
    (db : Db) (now t : ℕ) (k : String) (cache : Cache)
    → now + redis_cache_ttl ≤ t
    → IsGoneBy t cache
    → IsGoneBy t (lookup_key db now cache k).0
lookup_key-IsGoneBy db now t k cache le h = elim (Option-cases (cached now k cache)) [
  | inl missing ↦
      subst (IsGoneBy t) (sym (ap (λ z. z.0) (lookup_key-miss db now k cache missing)))
        (remember-IsGoneBy now t k (db now k) cache le h)
  | inr (meta, hit) ↦
      subst (IsGoneBy t) (sym (ap (λ z. z.0) (lookup_key-hit db now k cache meta hit))) h
]

pub lookup_via-IsGoneBy :
    (db : Db) (reached : Bool) (now t : ℕ) (k : String) (cache : Cache)
    → now + redis_cache_ttl ≤ t
    → IsGoneBy t cache
    → IsGoneBy t (lookup_via db reached now cache k).0
unfolding lookup_via
lookup_via-IsGoneBy db false now t k cache le h = h
lookup_via-IsGoneBy db true now t k cache le h = lookup_key-IsGoneBy db now t k cache le h

-- Lookups one after another, each with whether it reaches Redis, its time and its key's hash.
unfoldable pub lookup_all : Db → Cache → List (Bool × ℕ × String) → Cache
lookup_all db cache [] = cache
lookup_all db cache (r ∷ rs) = lookup_all db (lookup_via db r.0 r.1 cache r.2).0 rs

lookup_all-IsGoneBy :
    (db : Db) (t : ℕ) (rs : List (Bool × ℕ × String)) (cache : Cache)
    → All (λ r. r.1 ≤ t) rs
    → IsGoneBy (t + redis_cache_ttl) cache
    → IsGoneBy (t + redis_cache_ttl) (lookup_all db cache rs)
unfolding lookup_all
lookup_all-IsGoneBy db t [] cache u h = h
lookup_all-IsGoneBy db t (r ∷ rs) cache (le, u) h =
    lookup_all-IsGoneBy db t rs _ u
      (lookup_via-IsGoneBy db r.0 r.1 (t + redis_cache_ttl) r.2 cache (omega (arith, le)) h)

pub cached-none :
    (now t : ℕ) (k : String) (cache : Cache)
    → t ≤ now
    → IsGoneBy t cache
    → cached now k cache ≡ none
cached-none now t k cache le h = elim (Option-cases (lookup k cache)) [
  | inl missing ↦ rw missing refl
  | inr ((meta, gone_at), there) ↦ rw there (ground (arith, le, h k meta gone_at there))
]

-- After any lookups up to a time, from an empty cache, a lookup at least the cache's five minutes
-- later gives what the database gives then, whether it reaches Redis or not: a key that was revoked or
-- has expired in the meantime is accepted for no longer.
pub revoked_within_ttl :
    (db : Db) (reached : Bool) (t now : ℕ) (rs : List (Bool × ℕ × String)) (key_hash : String)
    → All (λ r. r.1 ≤ t) rs
    → t + redis_cache_ttl ≤ now
    → (lookup_via db reached now (lookup_all db [] rs) key_hash).1 ≡ db now key_hash
unfolding lookup_via lookup
revoked_within_ttl db false t now rs key_hash u le = refl
revoked_within_ttl db true t now rs key_hash u le =
    let gone = lookup_all-IsGoneBy db t rs [] u (λ k meta gone_at e. cc e) in
    ap (λ z. z.1)
      (lookup_key-miss db now key_hash (lookup_all db [] rs)
        (cached-none now (t + redis_cache_ttl) key_hash (lookup_all db [] rs) le gone))

empty-misses : (now : ℕ) (k : String) → cached now k [] ≡ none
unfolding lookup
empty-misses now k = refl

remember-cached :
    (now now' : ℕ) (k : String) (meta : KeyMetadata)
    → now' < now + redis_cache_ttl
    → cached now' k (remember now k (ok (some meta)) []) ≡ some meta
unfolding insert lookup
remember-cached now now' k meta lt = ground (arith, eq_refl k)

-- A key that the database gave, with nothing in the cache before, is accepted again within the five
-- minutes, whatever the database says of it by then.
pub accepted_while_cached :
    (db later : Db) (now now' : ℕ) (key_hash : String) (meta : KeyMetadata)
    → db now key_hash ≡ ok (some meta)
    → now' < now + redis_cache_ttl
    → (lookup_key later now' (lookup_key db now [] key_hash).0 key_hash).1 ≡ ok (some meta)
accepted_while_cached db later now now' key_hash meta found lt =
    let first = ap (λ z. z.0) (lookup_key-miss db now key_hash [] (empty-misses now key_hash)) in
    let filled = first ∙ ap (λ row. remember now key_hash row []) found in
    ap (λ c. (lookup_key later now' c key_hash).1) filled
    ∙ ap (λ z. z.1)
        (lookup_key-hit later now' key_hash _ meta (remember-cached now now' key_hash meta lt))
