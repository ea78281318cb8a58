-- ===== src/Prelude/Results.antt =====
-- Go's pair of a value and an error. `stuck` is no Go value: a loop of the model ran out of fuel.
pub data Result {ℓ} (E : Type 0) (A : Type ℓ) : Type ℓ where
  ok : A → Result E A
  err : E → Result E A
  stuck : Result E A
