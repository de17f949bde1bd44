-- ===== src/Simulation/Tests.antt =====
-- A bootstrap of three returns.
use quant_pilot.Base.{◌≡◌, refl, none, some, List, [], ◌∷◌, length, All, arith}
use quant_pilot.Base.Int.{ℤ, pos}
use quant_pilot.Float.Fixed.{fixed}
use quant_pilot.Float.Scaled.{fixed_literal, fixed_div}
use quant_pilot.Simulation.{stationary_bootstrap, resample_rows, resample_row, next_index}
use quant_pilot.Simulation.Samples.{counting, counting-IsGenerator}
use quant_pilot.Simulation.Bootstrap.{IsResample, stationary_bootstrap-IsResample}

abbrev returns : List ℤ
returns = pos 1 ∷ pos 2 ∷ pos 3 ∷ []

stationary_bootstrap-IsResample_example :
    (rows : List (List ℤ)) × (stationary_bootstrap counting returns (pos 10_000_000) 2 (some 4) none
      ≡ some rows)
    × (length rows ≡ 2)
    × All (IsResample returns 4) rows
unfolding fixed_literal
stationary_bootstrap-IsResample_example =
    stationary_bootstrap-IsResample counting counting-IsGenerator returns (pos 10_000_000) 2
      (some 4) none (ground arith) refl

-- The blocks wrap around the series, and jump where the draw says so.
resamples :
    stationary_bootstrap counting returns (pos 10_000_000) 2 (some 4) none
    ≡ some ((pos 3 ∷ pos 2 ∷ pos 3 ∷ pos 2 ∷ []) ∷ (pos 1 ∷ pos 2 ∷ pos 3 ∷ pos 2 ∷ []) ∷ [])
unfolding stationary_bootstrap resample_rows resample_row next_index fixed_literal fixed_div
resamples = refl
