-- ===== src/Prelude/Runs.antt =====
-- What a run of C code comes to: a value, an access outside the objects that the code may touch
-- (a null or dangling pointer, an index out of range, a division by zero), or a loop that the given
-- fuel does not finish.

pub data Outcome {ℓ} (A : Type ℓ) : Type ℓ where
  ret : A → Outcome A
  fault : Outcome A
  hang : Outcome A

infixl 5 ◌>>=◌
abbrev pub ◌>>=◌ {ℓ κ} : {A : Type ℓ} {B : Type κ} → Outcome A → (A → Outcome B) → Outcome B
ret a >>= f = f a
fault >>= f = fault
hang >>= f = hang
