-- ===== src/Tests/Floats.antt =====
-- A float64 whose values are the whole numbers from 0: it meets the laws that the theorems ask for.
use Prim.Native.Nat.{min}
use cloudberry_k8s.Base.{ℕ, true, ◌*◌, ◌≤◌, refl, arith, ◌==◌, leb, leb→le}
use cloudberry_k8s.Base.Int.{ℤ, pos, negsuc, pos_part, ◌≤ℤ◌}
use cloudberry_k8s.Base.Float.{Float64, IsIeee}

abbrev pub whole : Float64
whole = record {
  F = ℕ;
  of_ℤ = pos_part;
  to_ℤ = pos;
  mul = λ x y. x * y;
  min = min;
  is_finite = λ x. true;
  is_nonpos = λ x. x == 0;
  in_unit = λ x. leb x 1;
  two = 2;
}

unit_product : (b x y : ℕ) → x ≤ 1 → y ≤ 1 → b * x * y ≤ b
unit_product b x y hx hy = grind arith

whole_min_le : (x : ℕ) (m : ℤ) → pos 0 ≤ℤ m → pos (min x (pos_part m)) ≤ℤ m
whole_min_le x (pos n) h = omega arith
whole_min_le x (negsuc n) h = absurd (omega arith)

whole_mul_le : (b : ℤ) (x y : ℕ) → pos 0 ≤ℤ b → x ≤ 1 → y ≤ 1 → pos (pos_part b * x * y) ≤ℤ b
whole_mul_le (pos n) x y h hx hy = omega (arith, unit_product n x y hx hy)
whole_mul_le (negsuc n) x y h hx hy = absurd (omega arith)

pub whole-IsIeee : IsIeee whole
whole-IsIeee = record {
  mul_unit_le = λ b x y hb he hx hy. whole_mul_le b x y hb (leb→le x 1 hx) (leb→le y 1 hy);
  min_range = λ b m x hb eb hm em fin h. (omega arith, whole_min_le (pos_part b * x) m hm);
  two_finite = refl;
  two_pos = refl;
}
