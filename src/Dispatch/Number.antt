-- ===== src/Dispatch/Number.antt =====
-- Python's floats, as dispatch computes with them: seconds, megapixels and the tolerance.
use tuzka_as_a_service.Prelude.{ℕ, ◌≡◌, Bool, true, ◌⊎◌}
use tuzka_as_a_service.Prelude.Int.{ℤ}

-- The operations, and what the code relies on: the comparison orders the values that occur
-- (no NaN) totally.
pub record Number : Type 1 where
  pub Val : Type 0
  pub of_nat : ℕ → Val
  pub of_int : ℤ → Val
  pub times : Val → Val → Val
  pub over : Val → Val → Val
  pub plus : Val → Val → Val
  pub le : Val → Val → Bool
  pub le_total : (a b : Val) → (le a b ≡ true) ⊎ (le b a ≡ true)
  pub le_trans : (a b c : Val) → le a b ≡ true → le b c ≡ true → le a c ≡ true
