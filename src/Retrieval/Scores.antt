-- ===== src/Retrieval/Scores.antt =====
-- Python's floats as the retrieval code uses them. There are no floats in the logic, so the type
-- and its operations are parameters, with the laws of the order on floats that are no NaN.
use fiqhmind_ai_backend.Prelude.{ℕ, ◌≡◌, Bool, true, false}

pub record Floats : Type 1 where
  pub F : Type 0
  pub zero : F
  pub one : F
  pub add : F → F → F
  pub sub : F → F → F
  -- a float divided by an int
  pub over : F → ℕ → F
  pub lt : F → F → Bool

-- The order of floats that are no NaN.
pub record IsOrdered (fl : Floats) : Type 0 where
  pub irrefl : (a : fl.F) → fl.lt a a ≡ false
  pub asym : (a b : fl.F) → fl.lt a b ≡ true → fl.lt b a ≡ false
  pub cotrans : (a b c : fl.F) → fl.lt a b ≡ false → fl.lt b c ≡ false → fl.lt a c ≡ false
