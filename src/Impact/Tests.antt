-- ===== src/Impact/Tests.antt =====
-- A sale of a hundred shares, capped at a tenth of a volume of 500.
use quant_pilot.Base.{◌≡◌, refl}
use quant_pilot.Base.Int.{ℤ, pos, negsuc}
use quant_pilot.Float.Fixed.{fixed}
use quant_pilot.Float.Scaled.{fixed_literal, fixed_mul}
use quant_pilot.Impact.{cap_quantity}

abbrev desired : ℤ
desired = negsuc 99_999_999

capped : cap_quantity desired (pos 500_000_000) (pos 100_000) ≡ negsuc 49_999_999
unfolding cap_quantity fixed_literal fixed_mul
capped = refl
