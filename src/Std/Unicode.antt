-- ===== src/Std/Unicode.antt =====
-- The tables of Go's package `unicode`, which the model takes as a parameter.
use kotlsp.Prelude.{ℕ, Bool}

-- `IsLetter`, `IsDigit`, the categories Mn and Mc, and `IsUpper`. Nothing is assumed of them.
pub record Unicode : Type 0 where
  pub is_letter : ℕ → Bool
  pub is_digit : ℕ → Bool
  pub is_mark : ℕ → Bool
  pub is_upper : ℕ → Bool
