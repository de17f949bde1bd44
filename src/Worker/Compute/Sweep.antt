-- ===== src/Worker/Compute/Sweep.antt =====
-- A sweep against single backtests.
use quant_pilot.Base.{
  ℕ, String, ◌≡◌, refl, ap, false, Option, none, some, List, [], ◌∷◌, map, maybe, if◌then◌else◌,
  arith, Option-cases, inl, inr, Bool-cases, IsSome-value,
}
use quant_pilot.Base.Dict.{Dict, insert}
use quant_pilot.Float.{Float}
use quant_pilot.Simulation.{IsGenerator}
use quant_pilot.Analysis.{performance_stats}
use quant_pilot.Analysis.Significance.{sharpe_significance}
use quant_pilot.Analysis.Computable.{HasRoots, sharpe_significance-IsSome_of_stats}
use quant_pilot.Engine.{DayResult, Summary}
use quant_pilot.Worker.Compute.{
  PriceData, Libraries, Metrics, SweepPoint, MarketAttribution, lacks_prices, backtest_of,
  metrics_of, returns_of, execute_backtest, point_of, try_value, sweep_loop, sweep_parameter,
}

module _ {F M G V : Type 0} ⦃d : Float F⦄ (lib : Libraries F M G V) where
  -- The point that the metrics of a backtest give.
  abbrev pub point_of_metrics : F → Metrics F → SweepPoint F
  point_of_metrics v m = record {
    value = v;
    total_return = m.summary.total_return;
    cagr = m.performance.cagr;
    sharpe = m.performance.sharpe;
    max_drawdown = m.performance.max_drawdown;
    n_rebalances = m.summary.n_rebalances;
    attributed =
        maybe m.attribution none
          λ (a : MarketAttribution F). some (a.alpha_annual, a.beta, a.information_ratio);
  }

  -- The backtests of the values one by one: each value with the metrics of the run that has it as the
  -- parameter; values whose backtest raises are left out.
  abbrev pub backtests :
      PriceData F → String → Dict V → F → Option (List (ℕ × F)) → List F → List (F × Metrics F)
  backtests prices param base rf bench [] = []
  backtests prices param base rf bench (v ∷ values) =
      let rest = backtests prices param base rf bench values in
      maybe (execute_backtest lib prices "momentum" rf bench (insert param (lib.number v) base))
        rest λ m. (v, m) ∷ rest

  try_value-execute_backtest :
      (prices : PriceData F) (param : String) (base : Dict V) (rf : F)
      (bench : Option (List (ℕ × F))) (v : F) (m : Metrics F)
      → execute_backtest lib prices "momentum" rf bench (insert param (lib.number v) base) ≡ some m
      → try_value lib prices param base rf bench v ≡ some (point_of_metrics v m)
  unfolding execute_backtest try_value metrics_of point_of
  try_value-execute_backtest prices param base rf bench v m ran = ground (arith, ran)

  module _ (roots : HasRoots lib.moments) (laws : IsGenerator lib.rng) where
    metrics_of-point_of :
        (prices : PriceData F) (rf : F) (bench : Option (List (ℕ × F))) (v : F)
        (result : List (DayResult F) × Summary F)
        → metrics_of lib prices rf bench result ≡ none
        → point_of lib prices rf bench v result ≡ none
    unfolding metrics_of point_of
    metrics_of-point_of prices rf bench v (rs, summary) missing =
        elim (Option-cases (performance_stats lib.performance (returns_of lib rs) rf 252)) [
          | inl short ↦ rw short refl
          | inr (perf, found) ↦
              let (sig, tested) =
                IsSome-value
                  (sharpe_significance lib.moments lib.rng (returns_of lib rs) 1 252 200 none)
                  (sharpe_significance-IsSome_of_stats lib.moments roots lib.rng laws
                    lib.performance (returns_of lib rs) rf 252 perf 200 none found) in
              absurd (ground (arith, missing, found, tested))
        ]

    try_value-none :
        (prices : PriceData F) (param : String) (base : Dict V) (rf : F)
        (bench : Option (List (ℕ × F))) (v : F)
        → lacks_prices prices ≡ false
        → execute_backtest lib prices "momentum" rf bench (insert param (lib.number v) base) ≡ none
        → try_value lib prices param base rf bench v ≡ none
    unfolding execute_backtest try_value
    try_value-none prices param base rf bench v there missing =
        let params = insert param (lib.number v) base in
        elim (Option-cases (lib.model_validate params)) [
          | inl refused ↦ rw refused refl
          | inr (config, valid) ↦ elim (Option-cases (backtest_of lib prices config)) [
            | inl raised ↦ rw valid (rw raised refl)
            | inr (result, ran) ↦
                let short : metrics_of lib prices rf bench result ≡ none =
                  ground (arith, missing, there, valid, ran) in
                rw valid (rw ran (metrics_of-point_of prices rf bench v result short))
          ]
        ]

    sweep_loop-backtests :
        (prices : PriceData F) (param : String) (base : Dict V) (rf : F)
        (bench : Option (List (ℕ × F))) (values : List F)
        → lacks_prices prices ≡ false
        → sweep_loop lib prices param base rf bench values
          ≡ map (λ (v, m). point_of_metrics v m) (backtests prices param base rf bench values)
    unfolding sweep_loop
    sweep_loop-backtests prices param base rf bench [] there = refl
    sweep_loop-backtests prices param base rf bench (v ∷ values) there =
        let rest = sweep_loop-backtests prices param base rf bench values there in
        elim (Option-cases
          (execute_backtest lib prices "momentum" rf bench (insert param (lib.number v) base))) [
            | inl missing ↦
                rw (try_value-none prices param base rf bench v there missing) (rw missing rest)
            | inr (m, ran) ↦
                rw (try_value-execute_backtest prices param base rf bench v m ran)
                  (rw ran (ap (λ points. point_of_metrics v m ∷ points) rest))
          ]

    -- A sweep raises just where there are no prices. Otherwise it gives, in order, for each value
    -- whose single backtest succeeds, the point with that backtest's metrics, and skips the values
    -- whose backtest raises. The generator draws below its bound, and roots exist of what is not
    -- negative.
    pub sweep_parameter-eq-backtests :
        (prices : PriceData F) (param : String) (values : List F) (base : Dict V) (rf : F)
        (bench : Option (List (ℕ × F)))
        → sweep_parameter lib prices param values base "momentum" rf bench ≡ (
            if lacks_prices prices
            then none
            else some (
                map (λ (v, m). point_of_metrics v m) (backtests prices param base rf bench values)))
    unfolding sweep_parameter
    sweep_parameter-eq-backtests prices param values base rf bench =
        elim (Bool-cases (lacks_prices prices)) [
          | inl missing ↦ ground (arith, missing)
          | inr there ↦
              ground (arith, there, sweep_loop-backtests prices param base rf bench values there)
        ]
