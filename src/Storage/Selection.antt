-- ===== src/Storage/Selection.antt =====
-- What WHERE, ORDER BY and LIMIT of the SQL in internal/storage/usage.go make of the rows of a table.
use aegis_ai_gateway.Prelude.{
  ℕ, zero, suc, List, [], ◌∷◌, map, Bool, if◌then◌else◌, leb, ◌≡◌, refl, ap, ◌∙◌, Bool-cases, inl,
  inr,
}

module _ {A : Type 0} where
  abbrev pub where_holds : (A → Bool) → List A → List A
  where_holds p [] = []
  where_holds p (x ∷ xs) = let rest = where_holds p xs in if p x then x ∷ rest else rest

  abbrev pub put_by_time : (A → ℕ) → A → List A → List A
  put_by_time at x [] = x ∷ []
  put_by_time at x (y ∷ ys) =
      let later = put_by_time at x ys in if leb (at y) (at x) then x ∷ y ∷ ys else y ∷ later

  -- `ORDER BY created_at DESC`
  abbrev pub newest_first : (A → ℕ) → List A → List A
  newest_first at [] = []
  newest_first at (x ∷ xs) = put_by_time at x (newest_first at xs)

  abbrev pub take : ℕ → List A → List A
  take zero xs = []
  take (suc n) [] = []
  take (suc n) (x ∷ xs) = x ∷ take n xs

  -- The conditions, the order and the limit.
  abbrev pub select_by : (A → Bool) → (A → ℕ) → ℕ → List A → List A
  select_by p at limit xs = take limit (newest_first at (where_holds p xs))

module _ {A B : Type 0} (f : A → B) where
  where_holds-map :
      (p : A → Bool) (q : B → Bool) (xs : List A)
      → ((x : A) → q (f x) ≡ p x)
      → where_holds q (map f xs) ≡ map f (where_holds p xs)
  where_holds-map p q [] same = refl
  where_holds-map p q (x ∷ xs) same =
      let rest = where_holds-map p q xs same in
      elim (Bool-cases (p x)) [
        | inl chosen ↦ rw (same x, chosen) (ap (λ z. f x ∷ z) rest)
        | inr left_out ↦ rw (same x, left_out) rest
      ]

  module _ (at : A → ℕ) (at' : B → ℕ) (same : (x : A) → at' (f x) ≡ at x) where
    put_by_time-map :
        (x : A) (ys : List A) → put_by_time at' (f x) (map f ys) ≡ map f (put_by_time at x ys)
    put_by_time-map x [] = refl
    put_by_time-map x (y ∷ ys) =
        let rest = put_by_time-map x ys in
        elim (Bool-cases (leb (at y) (at x))) [
          | inl here ↦ rw (same x, same y, here) refl
          | inr later ↦ rw (same x, same y, later) (ap (λ z. f y ∷ z) rest)
        ]

    newest_first-map : (xs : List A) → newest_first at' (map f xs) ≡ map f (newest_first at xs)
    newest_first-map [] = refl
    newest_first-map (x ∷ xs) =
        ap (put_by_time at' (f x)) (newest_first-map xs) ∙ put_by_time-map x (newest_first at xs)

  take-map : (n : ℕ) (xs : List A) → take n (map f xs) ≡ map f (take n xs)
  take-map zero xs = refl
  take-map (suc n) [] = refl
  take-map (suc n) (x ∷ xs) = ap (λ z. f x ∷ z) (take-map n xs)

  pub select_by-map :
      (p : A → Bool) (q : B → Bool) (at : A → ℕ) (at' : B → ℕ) (limit : ℕ) (xs : List A)
      → ((x : A) → q (f x) ≡ p x)
      → ((x : A) → at' (f x) ≡ at x)
      → select_by q at' limit (map f xs) ≡ map f (select_by p at limit xs)
  select_by-map p q at at' limit xs same same_time =
      ap (λ z. take limit (newest_first at' z)) (where_holds-map p q xs same)
      ∙ (ap (take limit) (newest_first-map at at' same_time (where_holds p xs))
          ∙ take-map limit (newest_first at (where_holds p xs)))
