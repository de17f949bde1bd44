-- ===== src/Risk/Sizing/Tests.antt =====
-- Three positions: one is clipped to the limit, and two of a sector that is too large are scaled.
use native.Mathlib.Nat.{div-le_of_le-mul, mul-le-mul_left}
use quant_pilot.Base.{ℕ, ◌*◌, ◌/◌, ◌≤◌, String, ◌≡◌, refl, true, some, List, [], ◌∷◌, All, arith}
use quant_pilot.Base.Int.{ℤ, pos, negsuc, ◌+ℤ◌, magnitude, leb_ℤ}
use quant_pilot.Base.Dict.{Dict}
use quant_pilot.Float.Fixed.{fixed, fixed-IsOrdered, fixed-HasSigns}
use quant_pilot.Float.Scaled.{fixed_literal, fixed_mul, fixed_div}
use quant_pilot.Risk.Sizing.{Weights, apply_position_caps}
use quant_pilot.Risk.Sizing.Caps.{HasScaling, apply_position_caps-AllWithin}

product_bound : (m n : ℕ) → n ≤ 1_000_000 → m * n / 1_000_000 ≤ m
product_bound m n small = div-le_of_le-mul 1_000_000 (ground (arith, mul-le-mul_left m small))

quotient_bound : (m n : ℕ) → m ≤ n → m * 1_000_000 / n ≤ 1_000_000
quotient_bound m n small = div-le_of_le-mul n (ground arith)

fixed-HasScaling : HasScaling ℤ
unfolding fixed_mul fixed_div fixed_literal
fixed-HasScaling = record {
  abs-negate = λ x. ground arith;
  abs_le = λ x c p q. ground arith;
  negate_number = λ x h. ground arith;
  finite_of_le = λ x c p q. refl;
  share = λ a b p q. (ground arith, ground (arith, quotient_bound (magnitude a) (magnitude b)));
  shrink = λ x k p low high. ground (arith, product_bound (magnitude x) (magnitude k));
}

abbrev weights : Weights ℤ
weights = ("TCS", pos 90_000) ∷ ("INFY", negsuc 39_999) ∷ ("SBIN", pos 20_000) ∷ []

abbrev sectors : Dict String
sectors = ("TCS", "IT") ∷ ("INFY", "IT") ∷ []

abbrev total : List ℤ → ℤ
total [] = pos 0
total (x ∷ xs) = x +ℤ total xs

apply_position_caps-AllWithin_example :
    All
      (λ (_, x). leb_ℤ (pos (magnitude x)) (pos 50_000) ≡ true)
      (apply_position_caps total weights (pos 50_000) (some sectors) (some (pos 60_000)))
unfolding fixed_literal
apply_position_caps-AllWithin_example =
    apply_position_caps-AllWithin fixed-IsOrdered fixed-HasSigns fixed-HasScaling (pos 50_000) refl
      refl total weights (some sectors) (some (pos 60_000)) (refl, (refl, (refl, tt)))
