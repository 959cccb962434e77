-- ===== src/Gateway/Models.antt =====
-- `ListModels` of internal/gateway/handler.go. The loop over the map of models takes its entries in the
-- order of the list.
use mathlib.Core.List.Memᴰ
use mathlib.Core.List.{Memᴰ}
use aegis_ai_gateway.Prelude.{
  ap, ◌∙◌, arith, subst, refl, inr, inl, ◌==◌, sym, str_eq, eq_iff, if-both, ◌↔◌, length,
  Bool-cases, not, false, true, Result, ◌⊎◌, ℕ, Option, Bool, ◌≡◌, if◌then◌else◌, List, String, ◌∷◌,
  [], ok, err, some, none,
}
use aegis_ai_gateway.Types.{AuthInfo}
use aegis_ai_gateway.Config.{ModelsConfig, ModelMapping}
use aegis_ai_gateway.Http.{plain, ErrorResponse, write_auth_error}

pub record ModelObject : Type 0 where
  pub id : String
  pub object : String
  pub created : ℕ
  pub owned_by : String

-- The inner loop over the names that the key allows.
unfoldable pub is_named : String → List String → Bool
is_named name [] = false
is_named name (m ∷ ms) = if str_eq m name then true else is_named name ms

abbrev pub is_listed : List String → String → Bool
is_listed allowed name = if not (length allowed == 0) then is_named name allowed else true

abbrev pub model_object : String → ModelObject
model_object name = record { id = name; object = "model"; created = 0; owned_by = "aegis" }

unfoldable pub collect : List String → List (String × ModelMapping) → List ModelObject
unfolding is_named
collect allowed [] = []
collect allowed ((name, mapping) ∷ rest) =
    if is_listed allowed name
    then model_object name ∷ collect allowed rest
    else collect allowed rest

unfoldable pub list_models :
    {F : Type 0}
    → String
    → Option AuthInfo
    → ModelsConfig F
    → Result ErrorResponse (List ModelObject)
unfolding collect
list_models request_id none cfg = err (write_auth_error request_id (plain "Not authenticated"))
list_models request_id (some info) cfg = ok (collect info.allowed_models cfg.models)

is_named-Memᴰ : (name : String) (ms : List String) → is_named name ms ≡ true → Memᴰ name ms
unfolding is_named
is_named-Memᴰ name [] e = cc e
is_named-Memᴰ name (m ∷ ms) e = elim (Bool-cases (str_eq m name)) [
  | inl same ↦ Memᴰ.head (sym ((eq_iff m name).0 same))
  | inr other ↦ Memᴰ.tail (is_named-Memᴰ name ms (rw other at e))
]

Memᴰ-is_named : (name : String) (ms : List String) → Memᴰ name ms → is_named name ms ≡ true
unfolding is_named
Memᴰ-is_named name [] at = elim at [ ]
Memᴰ-is_named name (m ∷ ms) (Memᴰ.head same) = rw ((eq_iff m name).1 (sym same)) refl
Memᴰ-is_named name (m ∷ ms) (Memᴰ.tail there) =
    if-both (λ z. z ≡ true) (str_eq m name) refl (Memᴰ-is_named name ms there)

abbrev pub IsListed : List String → String → Type 0
IsListed allowed name = (allowed ≡ []) ⊎ Memᴰ name allowed

is_listed_some :
    (a : String) (others : List String) (name : String)
    → is_listed (a ∷ others) name ≡ is_named name (a ∷ others)
is_listed_some a others name = ground arith

is_listed-IsListed_iff :
    (allowed : List String) (name : String)
    → (is_listed allowed name ≡ true) ↔ IsListed allowed name
is_listed-IsListed_iff [] name = (λ e. inl refl, λ m. refl)
is_listed-IsListed_iff (a ∷ others) name =
    let tested = is_listed_some a others name in
    (
      λ e. inr (is_named-Memᴰ name (a ∷ others) (sym tested ∙ e)),
      λ m. elim m [
        | inl none_set ↦ cc none_set
        | inr at ↦ tested ∙ Memᴰ-is_named name (a ∷ others) at
      ],
    )

collect-Memᴰ :
    (allowed : List String) (models : List (String × ModelMapping)) (o : ModelObject)
    → Memᴰ o (collect allowed models)
    → (name : String) × (mapping : ModelMapping) × Memᴰ (name, mapping) models
      × (o ≡ model_object name)
      × (is_listed allowed name ≡ true)
unfolding collect
collect-Memᴰ allowed [] o at = elim at [ ]
collect-Memᴰ allowed ((name, mapping) ∷ rest) o at = elim (Bool-cases (is_listed allowed name)) [
  | inl allows ↦ elim (Memᴰ.cases_cons (rw allows at at)) [
    | inl this ↦ (name, mapping, Memᴰ.head refl, this, allows)
    | inr there ↦ listed_later (collect-Memᴰ allowed rest o there)
  ]
  | inr hides ↦ listed_later (collect-Memᴰ allowed rest o (rw hides at at))
]
  where
    listed_later :
        ((n : String) × (m : ModelMapping) × Memᴰ (n, m) rest
          × (o ≡ model_object n)
          × (is_listed allowed n ≡ true))
        → (n : String) × (m : ModelMapping) × Memᴰ (n, m) ((name, mapping) ∷ rest)
          × (o ≡ model_object n)
          × (is_listed allowed n ≡ true)
    listed_later (n, m, there, same, allows) = (n, m, Memᴰ.tail there, same, allows)

Memᴰ-collect :
    (allowed : List String) (models : List (String × ModelMapping)) (name : String)
    (mapping : ModelMapping)
    → Memᴰ (name, mapping) models
    → is_listed allowed name ≡ true
    → Memᴰ (model_object name) (collect allowed models)
unfolding collect
Memᴰ-collect allowed [] name mapping at allows = elim at [ ]
Memᴰ-collect allowed ((n, m) ∷ rest) name mapping (Memᴰ.head same) allows =
    subst
      (λ z.
        Memᴰ (model_object name)
          (if z then model_object n ∷ collect allowed rest else collect allowed rest))
      (sym (ap (λ z. is_listed allowed z.0) (sym same) ∙ allows))
      (Memᴰ.head (ap (λ z. model_object z.0) same))
Memᴰ-collect allowed ((n, m) ∷ rest) name mapping (Memᴰ.tail there) allows =
    if-both (Memᴰ (model_object name)) (is_listed allowed n)
      (Memᴰ.tail (Memᴰ-collect allowed rest name mapping there allows))
      (Memᴰ-collect allowed rest name mapping there allows)

-- The list of models that an identity gets has a model exactly if it is configured and the identity
-- allows it, or restricts none; each entry has the fixed fields.
pub list_models_iff :
    {F : Type 0} (request_id : String) (info : AuthInfo) (cfg : ModelsConfig F)
    (listed : List ModelObject) (o : ModelObject)
    → list_models request_id (some info) cfg ≡ ok listed
    → Memᴰ o listed ↔ (
        (name : String) × (mapping : ModelMapping) × Memᴰ (name, mapping) cfg.models
        × (o ≡ model_object name)
        × IsListed info.allowed_models name)
unfolding list_models
list_models_iff request_id info cfg listed o e =
    let same : collect info.allowed_models cfg.models ≡ listed = cc e in
    (
      λ at.
          let (name, mapping, there, entry, allows) =
            collect-Memᴰ info.allowed_models cfg.models o (subst (Memᴰ o) (sym same) at) in
          (name, mapping, there, entry, (is_listed-IsListed_iff info.allowed_models name).0 allows),
      λ (name, mapping, there, entry, allows). Memᴰ.cast entry (
          subst (Memᴰ (model_object name)) same (
            Memᴰ-collect info.allowed_models cfg.models name mapping there
              ((is_listed-IsListed_iff info.allowed_models name).1 allows))),
    )
