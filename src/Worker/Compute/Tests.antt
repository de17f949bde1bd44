-- ===== src/Worker/Compute/Tests.antt =====
-- A backtest of two symbols over four days, and a sweep.
use quant_pilot.Base.{ℕ, String, ◌≡◌, refl, none, some, List, [], ◌∷◌, ◌++◌, map, take, arith}
use quant_pilot.Base.Int.{ℤ, pos}
use quant_pilot.Float.Fixed.{fixed}
use quant_pilot.Float.Scaled.{fixed_to_int}
use quant_pilot.Simulation.Samples.{counting-IsGenerator}
use quant_pilot.Momentum.{Row, n_select}
use quant_pilot.Momentum.Samples.{pd, config, row}
use quant_pilot.Engine.{DayResult, Summary}
use quant_pilot.Engine.Samples.{np}
use quant_pilot.Engine.Causal.{trades}
use quant_pilot.Worker.Compute.{PriceData, default_engine, backtest_of, sweep_parameter}
use quant_pilot.Worker.Compute.Samples.{unit, lib, moments-HasRoots}
use quant_pilot.Worker.Compute.Causal.{prices_of, backtest_of_causal}
use quant_pilot.Worker.Compute.Sweep.{point_of_metrics, backtests, sweep_parameter-eq-backtests}

abbrev symbols : List String
symbols = "TCS" ∷ "INFY" ∷ []

abbrev opens : List (ℕ × Row ℤ)
opens = (1, row 2_000_000 1_000_000) ∷ (2, row 2_500_000 1_000_000) ∷ []

abbrev next : ℕ × Row ℤ
next = (3, row 3_000_000 1_000_000)

abbrev rise : List (ℕ × Row ℤ)
rise = (3, row 9_000_000 1_000_000) ∷ []

abbrev fall : List (ℕ × Row ℤ)
fall = (3, row 1_000_000 9_000_000) ∷ (4, row 1_000_000 9_000_000) ∷ []

selects : (n : ℕ) → (k : ℕ) × (n_select pd config symbols n ≡ some k)
unfolding n_select fixed_to_int
selects n = (_, refl)

abbrev rising : PriceData ℤ
rising = prices_of lib symbols (opens ++ next ∷ []) (opens ++ rise)

abbrev falling : PriceData ℤ
falling = prices_of lib symbols (opens ++ next ∷ fall) (opens ++ fall)

backtest_of_causal_example :
    (rs : List (DayResult ℤ)) × (s : Summary ℤ) × (rs' : List (DayResult ℤ)) × (s' : Summary ℤ)
    × (backtest_of lib rising config ≡ some (rs, s))
    × (backtest_of lib falling config ≡ some (rs', s'))
    × (map (trades np default_engine symbols) (take 3 rs)
        ≡ map (trades np default_engine symbols) (take 3 rs'))
backtest_of_causal_example =
    backtest_of_causal lib config symbols 2 opens opens [] fall rise fall next (λ t n. ground arith)
      selects (ground arith, (ground arith, tt)) (ground arith, (ground arith, tt))
      (ground arith, tt) (ground arith, (ground arith, tt))

sweep_parameter-eq-backtests_example :
    sweep_parameter lib rising "long_pct" (unit ∷ pos 500_000 ∷ []) [] "momentum" (pos 65_000) none
    ≡ some (
        map
          (λ (v, m). point_of_metrics lib v m)
          (backtests lib rising "long_pct" [] (pos 65_000) none (unit ∷ pos 500_000 ∷ [])))
sweep_parameter-eq-backtests_example =
    sweep_parameter-eq-backtests lib moments-HasRoots counting-IsGenerator rising "long_pct"
      (unit ∷ pos 500_000 ∷ []) [] (pos 65_000) none
