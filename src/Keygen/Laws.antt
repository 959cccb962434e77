-- ===== src/Keygen/Laws.antt =====
-- The keys that cmd/keygen/main.go issues: what is stored of them, and that internal/auth lets them in.
use Prim.Native.String.{◌++◌}
use aegis_ai_gateway.Prelude.{
  ℤ, ◌+◌, String, List, Bool, ◌||◌, some, Result, ok, err, str_eq, ◌≡◌, refl, sym, ap, ◌∙◌,
  Bool-cases, inl, inr, arith, byte_length, byte_length-append, trim_prefix-append, take_bytes,
}
use aegis_ai_gateway.Database.{Column}
use aegis_ai_gateway.Auth.{KeyMetadata, Row, admit, info_of, authenticate}
use aegis_ai_gateway.Auth.Guard.{authenticate-admit_iff}
use aegis_ai_gateway.Auth.Keys.{format_key, generate_key, key_prefix, parse_duration}
use aegis_ai_gateway.Auth.Keys.Laws.{HasNoDash, byte_length-format_key, key_prefix-generate_key}
use aegis_ai_gateway.Keygen.{
  Flags, Outside, Issued, add_duration, database_url, key_row, inserted, with_expiry, with_key,
  keygen,
}

-- A key of the generated form, sent as "Bearer " and the key, is let in with the identity of the metadata
-- that the store has under its hash.
pub generated_key_admitted :
    {C : Type 0} (request_id : String) (audit : Bool) (store : C → String → C × Row)
    (hash_key : String → String) (cache : C) (env random : String) (meta : KeyMetadata)
    → (store cache (hash_key (format_key env random))).1 ≡ ok (some meta)
    → (authenticate request_id audit store hash_key cache ("Bearer " ++ format_key env random)).2
      ≡ admit (info_of meta)
generated_key_admitted request_id audit store hash_key cache env random meta found =
    let key = format_key env random in
    let long = byte_length-format_key env random in
    let header : byte_length ("Bearer " ++ key) ≡ 7 + byte_length key =
      byte_length-append "Bearer " key in
    (authenticate-admit_iff request_id audit store hash_key cache ("Bearer " ++ key)
        (info_of meta)).1
      (
        key,
        (
          (λ e. omega (arith, header, ap byte_length e)),
          trim_prefix-append "Bearer " key,
          (λ e. omega (arith, header, ap byte_length e)),
          (λ e. omega (arith, long, ap byte_length e)),
        ),
        (meta, found, refl),
      )

module _ {F : Type 0} (w : Outside F) (flags : Flags) where
  -- The key that was generated, until when it lasts, and the row.
  abbrev pub IsIssued : Issued F → Type 0
  IsIssued i =
      (generate_key flags.env w.rand ≡ ok i.raw_key)
      × ((dur : ℤ) × (parse_duration w.scan_days w.parse_go flags.expires ≡ ok dur)
          × (i.row
              ≡ key_row w flags (w.hash_key i.raw_key) (key_prefix i.raw_key)
                  (add_duration w.now dur)))

  inserted-row :
      (row : List (Column F)) (raw_key : String) (r : Result String String) (i : Issued F)
      → inserted w flags row raw_key r ≡ ok i
      → (raw_key ≡ i.raw_key) × (row ≡ i.row)
  inserted-row row raw_key (err e) i h = cc h
  inserted-row row raw_key (ok key_id) i h = (cc h, cc h)

  with_expiry-row :
      (raw_key : String) (r : Result String ℤ) (i : Issued F)
      → with_expiry w flags raw_key r ≡ ok i
      → (raw_key ≡ i.raw_key)
        × ((dur : ℤ) × (r ≡ ok dur)
            × (i.row
                ≡ key_row w flags
                    (w.hash_key raw_key)
                    (key_prefix raw_key)
                    (add_duration w.now dur)))
  with_expiry-row raw_key (err e) i h = cc h
  with_expiry-row raw_key (ok dur) i h =
      elim (Bool-cases (w.connects (database_url w.getenv flags.db_url))) [
        | inl connected ↦
            let (same, row) = inserted-row _ raw_key _ i (rw connected at h) in
            (same, (dur, refl, sym row))
        | inr failed ↦ cc (rw failed at h)
      ]

  with_key-IsIssued :
      (r : Result String String) (i : Issued F)
      → generate_key flags.env w.rand ≡ r
      → with_key w flags r ≡ ok i
      → IsIssued i
  with_key-IsIssued (err e) i drawn h = cc h
  with_key-IsIssued (ok raw_key) i drawn h =
      let (same, (dur, parsed, row)) = with_expiry-row raw_key _ i h in
      (
        drawn ∙ ap ok same,
        (
          dur,
          parsed,
          row
              ∙ ap (λ k. key_row w flags (w.hash_key k) (key_prefix k) (add_duration w.now dur))
                  same,
        ),
      )

  pub keygen-IsIssued : (i : Issued F) → keygen w flags ≡ ok i → IsIssued i
  unfolding keygen
  keygen-IsIssued i h =
      elim (Bool-cases (str_eq flags.org "" || str_eq flags.team "" || str_eq flags.name "")) [
        | inl missing ↦ cc (rw missing at h)
        | inr given ↦ with_key-IsIssued _ i refl (rw given at h)
      ]

  -- A key that keygen issues, for an environment without a dash, has 32 random bytes, and the row that it
  -- stores holds nothing of them but the key's hash and the first eight.
  pub keygen_row :
      (i : Issued F)
      → HasNoDash flags.env
      → keygen w flags ≡ ok i
      → (random : String) × (dur : ℤ) × (i.raw_key ≡ format_key flags.env random)
        × (byte_length random ≡ 32)
        × (parse_duration w.scan_days w.parse_go flags.expires ≡ ok dur)
        × (i.row
            ≡ key_row w flags
                (w.hash_key i.raw_key)
                (format_key flags.env (take_bytes 8 random))
                (add_duration w.now dur))
  keygen_row i no_dash h =
      let (drawn, (dur, parsed, row)) = keygen-IsIssued i h in
      let (random, shape, long, prefix) =
        key_prefix-generate_key flags.env w.rand i.raw_key no_dash drawn in
      (
        random,
        dur,
        shape,
        long,
        parsed,
        row ∙ ap (λ p. key_row w flags (w.hash_key i.raw_key) p (add_duration w.now dur)) prefix,
      )
