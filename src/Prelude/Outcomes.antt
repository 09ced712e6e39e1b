-- ===== src/Prelude/Outcomes.antt =====
-- The outcome of a loop on fuel whose body can be undefined.
pub data Outcome {ℓ} (A : Type ℓ) : Type ℓ where
  running undefined : Outcome A
  stopped : A → Outcome A
