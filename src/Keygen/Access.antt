-- ===== src/Keygen/Access.antt =====
-- A key from cmd/keygen/main.go to internal/auth: what the row that keygen stores lets its bearer do, and
-- until when.
use Prim.Native.String.{◌++◌}
use mathlib.Core.List.{Memᴰ}
use aegis_ai_gateway.Prelude.{
  ℕ, ℤ, ◌<◌, String, List, Bool, true, false, Option, none, some, Result, ok, str_eq, ltb, ◌≡◌,
  refl, sym, ap, ◌∙◌, Bool-cases, inl, inr, eq_iff, eq_refl, ◌↔◌, trim_prefix-append, subst, arith,
}
use aegis_ai_gateway.Types.{AuthInfo}
use aegis_ai_gateway.Database.{read_nullable}
use aegis_ai_gateway.Audit.{nullable}
use aegis_ai_gateway.Auth.{Row, Db, Cache, cached, lookup_via, admit, info_of, authenticate}
use aegis_ai_gateway.Auth.Guard.{authenticate-admit_iff}
use aegis_ai_gateway.Auth.Revocation.{lookup_key-miss}
use aegis_ai_gateway.Auth.Keys.{key_prefix, parse_duration}
use aegis_ai_gateway.Auth.Keys.Laws.{generate_key-format_key}
use aegis_ai_gateway.Auth.Table.{
  ApiKey, is_live, text_or_empty, metadata_of, query_row, read_table, lookup_db, IsUnique,
  query_row-none, query_row-some,
}
use aegis_ai_gateway.Keygen.{
  Flags, Outside, Issued, add_duration, key_row, nil_if_empty, inserted_row, keygen,
}
use aegis_ai_gateway.Keygen.Laws.{keygen-IsIssued, generated_key_admitted}

lookup_via-miss :
    (db : Db) (reached : Bool) (now : ℕ) (cache : Cache) (k : String)
    → cached now k cache ≡ none
    → (lookup_via db reached now cache k).1 ≡ db now k
unfolding lookup_via
lookup_via-miss db false now cache k miss = refl
lookup_via-miss db true now cache k miss = ap (λ z. z.1) (lookup_key-miss db now k cache miss)

given_user : (s : String) → text_or_empty (nil_if_empty s) ≡ s
unfolding nil_if_empty
given_user s = elim (Bool-cases (str_eq s "")) [
  | inl empty ↦ rw empty (sym ((eq_iff s "").0 empty))
  | inr given ↦ rw given refl
]

read_back : (F : Type 0) (user : Option String) → read_nullable (nullable {F = F} user) ≡ user
read_back F none = refl
read_back F (some s) = refl

module _ {F : Type 0} (w : Outside F) (flags : Flags) (unmarshal : String → List String) where
  -- The identity that the flags give.
  abbrev pub identity : Issued F → AuthInfo
  identity i = record {
    key_id = i.key_id;
    organization_id = flags.org;
    team_id = flags.team;
    user_id = flags.user;
    max_classification = flags.classification;
    allowed_models = unmarshal "[]";
    rpm_limit = none;
    tpm_limit = none;
    daily_spend_limit_cents = none;
  }

  -- The row that the INSERT leaves.
  abbrev row_of : Issued F → String → ℕ → ApiKey
  row_of i prefix expires_at = record {
    id = i.key_id;
    key_hash = w.hash_key i.raw_key;
    key_prefix = prefix;
    organization_id = flags.org;
    team_id = flags.team;
    user_id = nil_if_empty flags.user;
    name = flags.name;
    status = "active";
    max_classification = flags.classification;
    allowed_models = "[]";
    rpm_limit = none;
    tpm_limit = none;
    daily_spend_limit_cents = none;
    expires_at = expires_at;
  }

  inserted_row-key_row :
      (i : Issued F) (prefix : String) (expires_at : ℕ)
      → inserted_row i.key_id (key_row w flags (w.hash_key i.raw_key) prefix expires_at)
        ≡ some (row_of i prefix expires_at)
  unfolding inserted_row
  inserted_row-key_row i prefix expires_at =
      ap (λ u. some (record (row_of i prefix expires_at) { user_id = u }))
        (read_back F (nil_if_empty flags.user))

  identity-row_of :
      (i : Issued F) (prefix : String) (expires_at : ℕ)
      → info_of (metadata_of unmarshal (row_of i prefix expires_at)) ≡ identity i
  identity-row_of i prefix expires_at =
      ap (λ u. record (identity i) { user_id = u }) (given_user flags.user)

  -- What the database holds, in which the row stands under a hash of its own.
  pub record Holds (i : Issued F) (now : ℕ) (table : ℕ → Result String (List ApiKey)) (row : ApiKey)
      : Type 0 where
    pub is_stored : inserted_row i.key_id i.row ≡ some row
    pub rows : List ApiKey
    pub given : table now ≡ ok rows
    pub there : Memᴰ row rows
    pub unique : IsUnique row rows

  module _ (i : Issued F) (issued : keygen w flags ≡ ok i) (now : ℕ)
      (table : ℕ → Result String (List ApiKey)) (row : ApiKey) (holds : Holds i now table row) where
    shape :
        (prefix : String) × (expires_at : ℕ) × (row ≡ row_of i prefix expires_at)
        × ((dur : ℤ) × (parse_duration w.scan_days w.parse_go flags.expires ≡ ok dur)
            × (expires_at ≡ add_duration w.now dur))
    shape =
        let (drawn, (dur, parsed, same)) = keygen-IsIssued w flags i issued in
        let found = inserted_row-key_row i (key_prefix i.raw_key) (add_duration w.now dur) in
        let same_row : row ≡ row_of i (key_prefix i.raw_key) (add_duration w.now dur) =
          cc (holds.is_stored, ap (inserted_row i.key_id) same, found) in
        (key_prefix i.raw_key, add_duration w.now dur, same_row, (dur, parsed, refl))

    named : row.key_hash ≡ w.hash_key i.raw_key
    named = let (prefix, expires_at, same, rest) = shape in ap (λ r. r.key_hash) same

    live : is_live now row.key_hash row ≡ ltb now row.expires_at
    live =
        let (prefix, expires_at, same, rest) = shape in
        subst (λ r. is_live now r.key_hash r ≡ ltb now r.expires_at) (sym same)
          (rw (eq_refl (w.hash_key i.raw_key)) refl)

    module _ (reached : Bool) (cache : Cache)
        (miss : cached now (w.hash_key i.raw_key) cache ≡ none) where
      abbrev store : Cache → String → Cache × Row
      store = lookup_via (lookup_db unmarshal table) reached now

      asked :
          (store cache (w.hash_key i.raw_key)).1 ≡ query_row unmarshal now row.key_hash holds.rows
      unfolding lookup_db
      asked =
          lookup_via-miss (lookup_db unmarshal table) reached now cache (w.hash_key i.raw_key) miss
          ∙ (ap (read_table unmarshal now (w.hash_key i.raw_key)) holds.given
              ∙ ap (λ h. query_row unmarshal now h holds.rows) (sym named))

      module _ (request_id : String) (audit : Bool) where
        abbrev LetsIn : String → AuthInfo → Type 0
        LetsIn key info =
            (authenticate request_id audit store w.hash_key cache ("Bearer " ++ key)).2 ≡ admit info

        admitted_before : now < row.expires_at → LetsIn i.raw_key (identity i)
        admitted_before early =
            let (random, same) =
              generate_key-format_key flags.env w.rand i.raw_key
                (keygen-IsIssued w flags i issued).0 in
            let (prefix, expires_at, is_row, rest) = shape in
            let lt : ltb now row.expires_at ≡ true = ground (arith, early) in
            let found =
              asked
              ∙ query_row-some unmarshal now row holds.rows holds.unique holds.there (live ∙ lt) in
            let at_key =
              subst (λ k. (store cache (w.hash_key k)).1 ≡ ok (some (metadata_of unmarshal row)))
                (sym same) found in
            let let_in =
              subst (λ k. LetsIn k (info_of (metadata_of unmarshal row))) same
                (generated_key_admitted request_id audit store w.hash_key cache flags.env random
                  (metadata_of unmarshal row) at_key) in
            let_in
            ∙ ap admit (
                ap (λ r. info_of (metadata_of unmarshal r)) is_row
                ∙ identity-row_of i prefix expires_at)

        refused_later : ltb now row.expires_at ≡ false → ¬ LetsIn i.raw_key (identity i)
        refused_later late let_in =
            let (token, (given, trimmed, other, some_text), (meta, found, same)) =
              (authenticate-admit_iff request_id audit store w.hash_key cache
                  ("Bearer " ++ i.raw_key) (identity i)).0
                let_in in
            let is_key : i.raw_key ≡ token =
              sym (trim_prefix-append "Bearer " i.raw_key) ∙ trimmed in
            let nothing =
              asked ∙ query_row-none unmarshal now row holds.rows holds.unique (live ∙ late) in
            cc (ap (λ k. (store cache (w.hash_key k)).1) is_key, found, nothing)

        -- A key that keygen issues, sent as "Bearer " and the key to a gateway that has nothing of it in
        -- its cache, is let in exactly as long as the duration that was asked for has not run out, and
        -- then with the organization, the team, the user and the highest classification of keygen's
        -- flags, under the id that the database chose, where the table still holds the row as it was
        -- inserted and no other under the key's hash.
        pub issued_key_admitted_iff :
            (LetsIn i.raw_key (identity i) ↔ (now < row.expires_at))
            × ((dur : ℤ) × (parse_duration w.scan_days w.parse_go flags.expires ≡ ok dur)
                × (row.expires_at ≡ add_duration w.now dur))
        issued_key_admitted_iff =
            let (prefix, expires_at, is_row, (dur, parsed, until)) = shape in
            (
              (
                λ let_in. elim (Bool-cases (ltb now row.expires_at)) [
                  | inl early ↦ ground (arith, early)
                  | inr late ↦ absurd (refused_later late let_in)
                ],
                admitted_before,
              ),
              (dur, parsed, ap (λ r. r.expires_at) is_row ∙ until),
            )
