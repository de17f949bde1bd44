-- ===== src/Engine/Samples.antt =====
-- A small `numpy` on which the engine runs.
use quant_pilot.Base.{List, [], ◌∷◌}
use quant_pilot.Base.Int.{ℤ, pos, negsuc, ◌+ℤ◌}
use quant_pilot.Float.{min}
use quant_pilot.Float.Fixed.{fixed}
use quant_pilot.Engine.{Numpy}

abbrev pub sum_of : List ℤ → ℤ
sum_of [] = pos 0
sum_of (x ∷ xs) = x +ℤ sum_of xs

abbrev pub sign : ℤ → ℤ
sign (pos _) = pos 1_000_000
sign (negsuc _) = negsuc 999_999

-- No trailing statistics: no volume cap and no volatility.
abbrev pub np : Numpy ℤ
np = record {
  minimum = min;
  sign = sign;
  nan_to_num = λ x. x;
  nansum = sum_of;
  rolling_median = λ window volumes. pos 0;
  rolling_deviation = λ window closes. pos 0;
}
