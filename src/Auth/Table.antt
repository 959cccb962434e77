-- ===== src/Auth/Table.antt =====
-- `lookupDB` of internal/auth/store.go on the table api_keys of migrations/001_create_api_keys.up.sql. What
-- the database gives for the table, or its error, and the decoding of the JSON of the allowed models are
-- parameters: where that fails, the field holds what the decoder leaves there. The update of
-- last_used_at, which nothing reads, is left out.
use Prim.Native.String.{◌++◌}
use mathlib.Core.List.Memᴰ
use mathlib.Core.List.{Memᴰ}
use aegis_ai_gateway.Prelude.{
  ℕ, ℤ, String, List, [], ◌∷◌, Bool, true, false, ◌&&◌, Option, none, some, Result, ok, err,
  if◌then◌else◌, str_eq, ltb, ◌≡◌, refl, ap, Bool-cases, inl, inr, eq_iff,
}
use aegis_ai_gateway.Auth.{KeyMetadata, Row, Db}

pub record ApiKey : Type 0 where
  pub id : String
  pub key_hash : String
  pub key_prefix : String
  pub organization_id : String
  pub team_id : String
  pub user_id : Option String
  pub name : String
  pub status : String
  pub max_classification : String
  pub allowed_models : String
  pub rpm_limit : Option ℤ
  pub tpm_limit : Option ℤ
  pub daily_spend_limit_cents : Option ℤ
  pub expires_at : ℕ

-- The condition of the query.
abbrev pub is_live : ℕ → String → ApiKey → Bool
is_live now key_hash row =
    str_eq row.key_hash key_hash && str_eq row.status "active" && ltb now row.expires_at

abbrev pub text_or_empty : Option String → String
text_or_empty none = ""
text_or_empty (some s) = s

-- A hash belongs to one row at most, which is the UNIQUE of the table.
abbrev pub IsUnique : ApiKey → List ApiKey → Type 0
IsUnique row rows = (r : ApiKey) → Memᴰ r rows → r.key_hash ≡ row.key_hash → r ≡ row

same_hash : (now : ℕ) (h : String) (r : ApiKey) → is_live now h r ≡ true → r.key_hash ≡ h
same_hash now h r live = elim (Bool-cases (str_eq r.key_hash h)) [
  | inl same ↦ (eq_iff r.key_hash h).0 same
  | inr other ↦ cc (rw other at live)
]

module _ (unmarshal : String → List String) where
  abbrev pub metadata_of : ApiKey → KeyMetadata
  metadata_of row = record {
    id = row.id;
    organization_id = row.organization_id;
    team_id = row.team_id;
    user_id = text_or_empty row.user_id;
    name = row.name;
    max_classification = row.max_classification;
    allowed_models = if str_eq row.allowed_models "" then [] else unmarshal row.allowed_models;
    rpm_limit = row.rpm_limit;
    tpm_limit = row.tpm_limit;
    daily_spend_limit_cents = row.daily_spend_limit_cents;
    expires_at = row.expires_at;
  }

  -- `QueryRow`: the first row that the query gives.
  unfoldable pub query_row : ℕ → String → List ApiKey → Row
  query_row now key_hash [] = ok none
  query_row now key_hash (row ∷ rows) =
      let rest = query_row now key_hash rows in
      if is_live now key_hash row then ok (some (metadata_of row)) else rest

  abbrev pub read_table : ℕ → String → Result String (List ApiKey) → Row
  read_table now key_hash (err e) = err ("query api_keys: " ++ e)
  read_table now key_hash (ok rows) = query_row now key_hash rows

  unfoldable pub lookup_db : (ℕ → Result String (List ApiKey)) → Db
  unfolding query_row
  lookup_db table now key_hash = read_table now key_hash (table now)

  pub query_row-none :
      (now : ℕ) (row : ApiKey) (rows : List ApiKey)
      → IsUnique row rows
      → is_live now row.key_hash row ≡ false
      → query_row now row.key_hash rows ≡ ok none
  unfolding query_row
  query_row-none now row [] unique dead = refl
  query_row-none now row (r ∷ rows) unique dead = elim (Bool-cases (is_live now row.key_hash r)) [
    | inl live ↦
        let same = unique r (Memᴰ.head refl) (same_hash now row.key_hash r live) in
        cc (ap (is_live now row.key_hash) same, live, dead)
    | inr other ↦ rw other (query_row-none now row rows (λ q at. unique q (Memᴰ.tail at)) dead)
  ]

  pub query_row-some :
      (now : ℕ) (row : ApiKey) (rows : List ApiKey)
      → IsUnique row rows
      → Memᴰ row rows
      → is_live now row.key_hash row ≡ true
      → query_row now row.key_hash rows ≡ ok (some (metadata_of row))
  unfolding query_row
  query_row-some now row [] unique at live = elim at [ ]
  query_row-some now row (r ∷ rows) unique at live =
      elim (Bool-cases (is_live now row.key_hash r)) [
        | inl found ↦
            let same = unique r (Memᴰ.head refl) (same_hash now row.key_hash r found) in
            rw found (ap (λ z. ok (some (metadata_of z))) same)
        | inr other ↦ elim (Memᴰ.cases_cons at) [
          | inl this ↦ cc (ap (is_live now row.key_hash) this, live, other)
          | inr there ↦
              rw other (query_row-some now row rows (λ q at'. unique q (Memᴰ.tail at')) there live)
        ]
      ]
