-- ===== src/Auth/Guard.antt =====
-- Which requests the authentication of internal/auth/middleware.go lets through.
use aegis_ai_gateway.Prelude.{
  subst, ◌∙◌, sym, inr, arith, eq_iff, inl, false, Bool-cases, str_eq, refl, none, some, ok, ◌↔◌,
  ◌≡◌, Bool, ◌≢◌, String,
}
use aegis_ai_gateway.Types.{AuthInfo}
use aegis_ai_gateway.Auth.{
  str_eq, err, some, ok, KeyMetadata, Row, trim_prefix, admit, info_of, judge_row, authenticate,
}

-- The token of a header that has the form "Bearer " and a token that is not empty.
abbrev pub HasToken : String → String → Type 0
HasToken auth_header token =
    (auth_header ≢ "")
    × (trim_prefix auth_header "Bearer " ≡ token)
    × (token ≢ auth_header)
    × (token ≢ "")

judge_row-admit_iff :
    (request_id : String) (audit : Bool) (token : String) (row : Row) (info : AuthInfo)
    → ((judge_row request_id audit token row).1 ≡ admit info)
      ↔ ((meta : KeyMetadata) × (row ≡ ok (some meta)) × (info ≡ info_of meta))
unfolding judge_row
judge_row-admit_iff request_id audit token (err e) info = (λ h. cc h, λ (meta, same, i). cc same)
judge_row-admit_iff request_id audit token (ok none) info = (λ h. cc h, λ (meta, same, i). cc same)
judge_row-admit_iff request_id audit token (ok (some m)) info =
    (λ h. (m, refl, cc h), λ (meta, same, i). cc (same, i))

differ : {s t : String} → str_eq s t ≡ false → s ≢ t
differ {s} {t} h e = ground (arith, eq_iff s t)

-- A request is let through, with an identity, exactly if its Authorization header is "Bearer " and a
-- token that is not empty, and the store finds metadata with that identity under the token's hash.
pub authenticate-admit_iff :
    {C : Type 0} (request_id : String) (audit : Bool) (store : C → String → C × Row)
    (hash_key : String → String) (cache : C) (auth_header : String) (info : AuthInfo)
    → ((authenticate request_id audit store hash_key cache auth_header).2 ≡ admit info) ↔ (
        (token : String) × HasToken auth_header token
        × ((meta : KeyMetadata) × ((store cache (hash_key token)).1 ≡ ok (some meta))
            × (info ≡ info_of meta)))
unfolding authenticate
authenticate-admit_iff request_id audit store hash_key cache auth_header info =
    let token = trim_prefix auth_header "Bearer " in
    let judged = judge_row-admit_iff request_id audit token (store cache (hash_key token)).1 info in
    elim (Bool-cases (str_eq auth_header "")) [
      | inl missing ↦
          rw missing ((λ h. cc h), λ (t, has, found). absurd (has.0 ((eq_iff _ _).0 missing)))
      | inr given ↦ elim (Bool-cases (str_eq token auth_header)) [
        | inl malformed ↦
            rw (given, malformed)
              (
                (λ h. cc h),
                λ (t, has, found). absurd (has.2 (sym has.1 ∙ (eq_iff _ _).0 malformed)),
              )
        | inr prefixed ↦ elim (Bool-cases (str_eq token "")) [
          | inl empty ↦
              rw (given, prefixed, empty)
                ((λ h. cc h), λ (t, has, found). absurd (has.3 (sym has.1 ∙ (eq_iff _ _).0 empty)))
          | inr token_given ↦
              rw (given, prefixed, token_given)
                (
                  (λ h. (
                    token,
                    (differ given, refl, differ prefixed, differ token_given),
                    judged.0 h,
                  )),
                  λ (t, has, found). judged.1 (
                      subst
                        (λ z.
                          (meta : KeyMetadata) × ((store cache (hash_key z)).1 ≡ ok (some meta))
                          × (info ≡ info_of meta))
                        (sym has.1) found),
                )
        ]
      ]
    ]
