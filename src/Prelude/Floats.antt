-- ===== src/Prelude/Floats.antt =====
-- `float64` as an interface: what the source uses of it, and the laws of `<` on numbers.
use Prim.Native.Nat.{ℕ}
use mathlib.Core.Bool.{Bool}

-- A NaN is not a number, and has none of the laws.
pub record Floats : Type 1 where
  pub F : Type 0
  pub of_ratio : ℕ → ℕ → F
  pub sub : F → F → F
  pub mul : F → F → F
  pub div : F → F → F
  pub larger : F → F → F
  pub lt : F → F → Bool
  pub le : F → F → Bool
  pub same : F → F → Bool

abbrev pub of_ℕ : (fl : Floats) → ℕ → fl.F
of_ℕ fl n = fl.of_ratio n 1
