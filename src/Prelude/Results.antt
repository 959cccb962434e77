-- ===== src/Prelude/Results.antt =====
-- Results with an error, for Go's `(value, error)`.

pub data Result {ℓ} (E A : Type ℓ) : Type ℓ where
  ok : A → Result E A
  err : E → Result E A
