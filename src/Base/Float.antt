-- ===== src/Base/Float.antt =====
-- float64, which is not code of the repository: its values and the operations that the sources
-- apply, with IEEE-754 facts about whole numbers up to 2^53 as named laws.
use cloudberry_k8s.Base.Int.{ℤ, pos, ◌≤ℤ◌}
use Prim.Native.Nat.{◌^◌}
use mathlib.Core.Path.{◌≡◌}
use mathlib.Core.Bool.{Bool, true, false}

pub record Float64 : Type 1 where
  pub F : Type 0
  -- float64(n), and time.Duration(x) or int(x), which drop the fraction.
  pub of_ℤ : ℤ → F
  pub to_ℤ : F → ℤ
  pub mul : F → F → F
  pub min : F → F → F
  -- Neither infinite nor NaN.
  pub is_finite : F → Bool
  -- x <= 0
  pub is_nonpos : F → Bool
  -- 0 <= x <= 1
  pub in_unit : F → Bool
  pub two : F

abbrev pub exact : ℤ
exact = pos (2 ^ 53)

-- What float64 gives on whole numbers that it holds exactly. The product of such a number that is
-- not negative with a finite positive number is not NaN, so its minimum with a second one lies
-- between 0 and that one, where a conversion drops the fraction.
pub record IsIeee (f : Float64) : Type 0 where
  pub mul_unit_le :
      (b : ℤ) (x y : f.F)
      → pos 0 ≤ℤ b
      → b ≤ℤ exact
      → f.in_unit x ≡ true
      → f.in_unit y ≡ true
      → f.to_ℤ (f.mul (f.mul (f.of_ℤ b) x) y) ≤ℤ b
  pub min_range :
      (b m : ℤ) (x : f.F)
      → pos 0 ≤ℤ b
      → b ≤ℤ exact
      → pos 0 ≤ℤ m
      → m ≤ℤ exact
      → f.is_finite x ≡ true
      → f.is_nonpos x ≡ false
      → (pos 0 ≤ℤ f.to_ℤ (f.min (f.mul (f.of_ℤ b) x) (f.of_ℤ m)))
        × (f.to_ℤ (f.min (f.mul (f.of_ℤ b) x) (f.of_ℤ m)) ≤ℤ m)
  pub two_finite : f.is_finite f.two ≡ true
  pub two_pos : f.is_nonpos f.two ≡ false
