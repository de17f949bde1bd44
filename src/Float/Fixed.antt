-- ===== src/Float/Fixed.antt =====
-- The instance of `Float` by fixed-point numbers, and its laws.
use quant_pilot.Base.{◌^◌, ◌&&◌, refl, true, arith}
use quant_pilot.Base.Int.{ℤ, pos, ◌+ℤ◌, ◌-ℤ◌, leb_ℤ, ltb_ℤ, magnitude}
use quant_pilot.Float.{Float, IsOrdered, HasSigns}
use quant_pilot.Float.Scaled.{
  flip, fixed_sqrt, fixed_mul, fixed_div, fixed_copysign, fixed_literal, fixed_of_int, fixed_to_int,
}

instance abbrev pub fixed : Float ℤ
fixed = record {
  literal = fixed_literal;
  infinity = pos (10 ^ 30);
  of_int = fixed_of_int;
  to_int = fixed_to_int;
  add = ◌+ℤ◌;
  sub = ◌-ℤ◌;
  mul = fixed_mul;
  div = fixed_div;
  negate = flip;
  abs = λ x. pos (magnitude x);
  sqrt = fixed_sqrt;
  copysign = fixed_copysign;
  lt = ltb_ℤ;
  le = leb_ℤ;
  eq = λ x y. leb_ℤ x y && leb_ℤ y x;
  is_finite = λ x. true;
}

pub fixed-IsOrdered : IsOrdered ℤ
unfolding fixed_literal
fixed-IsOrdered = record {
  finite_number = λ x h. ground arith;
  nought_finite = refl;
  le_trans = λ x y z p q. ground arith;
  lt-not_le = λ x y p q. ground arith;
  eq-le_le = λ x y. refl;
  numbers_of_le = λ x y p. ground arith;
  le_of_lt = λ x y p. ground arith;
}

pub fixed-HasSigns : HasSigns ℤ
unfolding fixed_literal fixed_mul ◌+ℤ◌ ◌-ℤ◌
fixed-HasSigns = record {
  abs_nonneg = λ x h. ground arith;
  abs_number = λ x h. ground arith;
  abs-copysign = λ x y. ground arith;
  abs-le_of_nonneg = λ x h. ground arith;
  mul_nonneg = λ x y p q h k. ground arith;
  add_nonneg = λ x y h k. ground arith;
  sub_nonneg = λ x y p q h. ground arith;
}
