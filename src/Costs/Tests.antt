-- ===== src/Costs/Tests.antt =====
-- A purchase and a sale of ten shares at one hundred.
use quant_pilot.Base.{◌≡◌, refl, List, [], ◌∷◌}
use quant_pilot.Base.Int.{ℤ, pos, negsuc}
use quant_pilot.Float.{min}
use quant_pilot.Float.Fixed.{fixed, fixed-IsOrdered}
use quant_pilot.Float.Scaled.{fixed_literal, fixed_mul}
use quant_pilot.Costs.{delivery, default_costs}
use quant_pilot.Costs.Vectorized.{total_costs_vec, scalar_totals, total_costs_vec-eq-scalar_totals}

abbrev prices : List ℤ
prices = pos 100_000_000 ∷ pos 100_000_000 ∷ []

abbrev quantities : List ℤ
quantities = pos 10_000_000 ∷ negsuc 9_999_999 ∷ []

total_costs_vec-eq-scalar_totals_example :
    total_costs_vec min prices quantities default_costs delivery
    ≡ scalar_totals prices quantities default_costs delivery
unfolding fixed_literal fixed_mul
total_costs_vec-eq-scalar_totals_example =
    total_costs_vec-eq-scalar_totals fixed-IsOrdered min (λ x y p q. refl) default_costs delivery
      prices quantities refl (refl, refl, (refl, refl, tt))
