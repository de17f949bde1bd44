-- ===== src/Worker/Compute.antt =====
-- `execute_backtest` and `sweep_parameter` of src/quant_pilot/workers/tasks.py with their helpers, over
-- the models of the strategy, the engine and the analysis. A frame is its rows by date, with its
-- columns in `symbols`; a series is a list of dates with values, or its values where it has the dates
-- of the equity. `none` is an exception. What pandas, numpy, scipy and pydantic compute is a parameter.
pub mod Causal
pub mod Sweep
pub mod Samples
mod Tests
use quant_pilot.Base.{
  ℕ, String, Bool, true, false, ◌||◌, not, Option, none, some, List, [], ◌∷◌, map, keep, is_empty,
  maybe, ◌==◌, str_eq, if◌then◌else◌, ◌>>=◌,
}
use quant_pilot.Base.Dict.{Dict, lookup, insert}
use quant_pilot.Float.{Float, ◌-◌, ◌*◌, ◌/◌, nought, literal, lt, eq}
use quant_pilot.Costs.{default_costs, delivery}
use quant_pilot.Impact.{default_impact}
use quant_pilot.Simulation.{Generator}
use quant_pilot.Momentum.{MomentumConfig, Row, Pandas, generate_weights}
use quant_pilot.Engine.{Day, Engine, DayResult, Summary, run}
use quant_pilot.Analysis.{PerformanceStats, is_nan, drawdown_series, performance_stats}
use quant_pilot.Analysis.Significance.{SharpeSignificance, Moments, sharpe_significance}
use quant_pilot.Analysis.Attribution.{
  FactorAttribution, Linear, alpha_is_significant, factor_attribution,
}

-- `PriceData` without a volume and without halts; both frames have the columns `symbols`.
pub record PriceData (F : Type 0) : Type 0 where
  pub symbols : List String
  pub open_rows : List (ℕ × Row F)
  pub close_rows : List (ℕ × Row F)

-- What the libraries provide; V is the type of a value in the parameters of a run.
pub record Libraries (F M G V : Type 0) : Type 0 where
  pub nan : F
  -- `252**0.5`
  pub root_252 : F
  pub pct_change : List F → List F
  pub momentum : Pandas F
  pub engine : quant_pilot.Engine.Numpy F
  pub performance : quant_pilot.Analysis.Numpy F
  pub linear : Linear F M
  pub moments : Moments F
  pub rng : Generator F G
  -- `MomentumConfig.model_validate`
  pub model_validate : Dict V → Option (MomentumConfig F)
  pub number : F → V

pub record MarketAttribution (F : Type 0) : Type 0 where
  pub alpha_annual : F
  pub alpha_tstat : F
  pub alpha_significant : Bool
  pub beta : F
  pub r_squared : F
  pub information_ratio : F

pub record CurvePoint (F : Type 0) : Type 0 where
  pub date : ℕ
  pub equity : F
  pub drawdown : F
  pub benchmark : Option F

pub record Metrics (F : Type 0) : Type 0 where
  pub summary : Summary F
  pub performance : PerformanceStats F
  pub significance : SharpeSignificance F
  pub equity_curve : List (CurvePoint F)
  pub attribution : Option (MarketAttribution F)

pub record SweepPoint (F : Type 0) : Type 0 where
  pub value : F
  pub total_return : F
  pub cagr : F
  pub sharpe : F
  pub max_drawdown : F
  pub n_rebalances : ℕ
  pub attributed : Option (F × F × F)

-- A row of a frame, or a value of a series, on a date.
abbrev pub at_date : {A : Type 0} → ℕ → List (ℕ × A) → Option A
at_date t [] = none
at_date t (r ∷ rows) = if r.0 == t then some r.1 else at_date t rows

module _ {F : Type 0} ⦃d : Float F⦄ where
  -- `BacktestEngine()`
  abbrev pub default_engine : Engine F
  default_engine = record {
    costs = default_costs;
    impact = default_impact;
    initial_capital = literal 1_000_000 0;
    segment = delivery;
    vol_window = 20;
    adv_window = 20;
  }

  -- `fillna(0.0)`
  abbrev pub fill_nought : F → F
  fill_nought x = if is_nan x then nought else x

  -- `ffill()`, after the last value that is not NaN
  unfoldable pub ffill : F → List F → List F
  ffill last [] = []
  ffill last (x ∷ xs) = let x' = if is_nan x then last else x in x' ∷ ffill x' xs

  -- `.dropna()`
  abbrev pub dropna : List F → List F
  dropna xs = keep (λ x. not (is_nan x)) xs

  -- `prices.close is None or prices.close.empty`
  abbrev pub lacks_prices : PriceData F → Bool
  lacks_prices prices = is_empty prices.symbols || is_empty prices.close_rows

module _ {F M G V : Type 0} ⦃d : Float F⦄ (lib : Libraries F M G V) where
  -- The frames on one date of `prices.open`, as the engine's `reindex` gives them: a row that is not
  -- there is of NaN.
  abbrev pub day_from : Row F → Option (Row F) → Option (Row F) → Day F
  day_from opens closes weights = record {
    open_price = opens;
    close_price = maybe closes (λ s. lib.nan) λ row. row;
    volume = λ s. lib.nan;
    halted = λ s. false;
    target = λ s. maybe weights none λ row. if is_nan (row s) then none else some (row s);
  }

  abbrev pub day_at : List (ℕ × Row F) → List (ℕ × Row F) → ℕ × Row F → Day F
  day_at close weights (t, opens) = day_from opens (at_date t close) (at_date t weights)

  abbrev pub days_of : PriceData F → List (ℕ × Row F) → List (Day F)
  days_of prices weights = map (day_at prices.close_rows weights) prices.open_rows

  -- The strategy and the engine.
  unfoldable pub backtest_of :
      PriceData F → MomentumConfig F → Option (List (DayResult F) × Summary F)
  backtest_of prices config = do
    weights ← generate_weights lib.momentum config prices.symbols prices.close_rows none none
    run lib.engine default_engine prices.symbols (days_of prices weights)

  abbrev pub equity_of : List (DayResult F) → List F
  equity_of rs = map (λ (r : DayResult F). r.equity) rs

  -- `result.returns`
  abbrev pub returns_of : List (DayResult F) → List F
  returns_of rs = map fill_nought (lib.pct_change (equity_of rs))

  -- `_benchmark_equity`
  unfoldable pub benchmark_equity : Option (List (ℕ × F)) → List ℕ → F → Option (List F)
  benchmark_equity none index initial_capital = none
  benchmark_equity (some close) index initial_capital =
      let aligned = ffill lib.nan (map (λ t. maybe (at_date t close) lib.nan λ x. x) index) in
      if is_empty close then none else elim (dropna aligned) [
        | [] ↦ none
        | first ∷ _ ↦ some (map (λ x. lib.performance.divide (initial_capital * x) first) aligned)
      ]

  abbrev pub side_by_side : List F → List F → List (F × List F)
  side_by_side (x ∷ xs) (y ∷ ys) = (x, y ∷ []) ∷ side_by_side xs ys
  side_by_side _ _ = []

  -- `(returns - bench_ret).dropna()`
  abbrev pub gaps : List F → List F → List F
  gaps (x ∷ xs) (y ∷ ys) = (x - y) ∷ gaps xs ys
  gaps _ _ = []

  abbrev pub active_of : List F → List F → List F
  active_of returns bench_ret = dropna (gaps returns bench_ret)

  -- `ir`
  unfoldable pub information_ratio : List F → F
  information_ratio active =
      let np = lib.performance in
      if lt nought (np.std active) then np.mean active / np.std active * lib.root_252 else nought

  -- `_benchmark_attribution`; `none` is `None`, also for a regression that raises.
  unfoldable pub benchmark_attribution : List F → Option (List F) → F → Option (MarketAttribution F)
  benchmark_attribution returns bench_equity rf = do
    equity ← bench_equity
    let bench_ret = lib.pct_change equity
    attr ←
        factor_attribution lib.linear ("market" ∷ []) (side_by_side returns bench_ret) rf 252 none
    some (record {
      alpha_annual = attr.alpha_annual;
      alpha_tstat = attr.alpha_tstat;
      alpha_significant = alpha_is_significant attr;
      beta = maybe (lookup "market" attr.betas) nought λ b. b;
      r_squared = attr.r_squared;
      information_ratio = information_ratio (active_of returns bench_ret);
    })

  -- The loop over the equity curve, with what is left of the drawdowns and of the benchmark.
  unfoldable pub curve_of : List ℕ → List F → List F → Option (List F) → List (CurvePoint F)
  curve_of (t ∷ index) (e ∷ equity) (v ∷ dd) none =
      record { date = t; equity = e; drawdown = v; benchmark = none }
      ∷ curve_of index equity dd none
  curve_of (t ∷ index) (e ∷ equity) (v ∷ dd) (some (b ∷ bench)) =
      record { date = t; equity = e; drawdown = v; benchmark = if is_nan b then none else some b }
      ∷ curve_of index equity dd (some bench)
  curve_of _ _ _ _ = []

  abbrev pub bench_of : PriceData F → Option (List (ℕ × F)) → Summary F → Option (List F)
  bench_of prices benchmark_close summary =
      benchmark_equity benchmark_close (map (λ r. r.0) prices.open_rows) summary.initial

  -- What is computed of a run's result.
  unfoldable pub metrics_of :
      PriceData F → F → Option (List (ℕ × F)) → List (DayResult F) × Summary F → Option (Metrics F)
  metrics_of prices rf benchmark_close (rs, summary) = do
    let returns = returns_of rs
    let bench = bench_of prices benchmark_close summary
    perf ← performance_stats lib.performance returns rf 252
    sig ← sharpe_significance lib.moments lib.rng returns 1 252 200 none
    some (record {
      summary = summary;
      performance = perf;
      significance = sig;
      equity_curve =
          curve_of (map (λ r. r.0) prices.open_rows) (equity_of rs)
            (drawdown_series lib.performance returns) bench;
      attribution = benchmark_attribution returns bench rf;
    })

  -- The parameters are `strategy_params or {}`.
  unfoldable pub execute_backtest :
      PriceData F → String → F → Option (List (ℕ × F)) → Dict V → Option (Metrics F)
  execute_backtest prices strategy rf benchmark_close params =
      if lacks_prices prices || not (str_eq strategy "momentum") then none else (do
        config ← lib.model_validate params
        result ← backtest_of prices config
        metrics_of prices rf benchmark_close result)

  -- The point for the result of one value.
  unfoldable pub point_of :
      PriceData F
      → F
      → Option (List (ℕ × F))
      → F
      → List (DayResult F) × Summary F
      → Option (SweepPoint F)
  point_of prices rf benchmark_close v (rs, summary) = do
    let returns = returns_of rs
    perf ← performance_stats lib.performance returns rf 252
    let attr = benchmark_attribution returns (bench_of prices benchmark_close summary) rf
    some (record {
      value = v;
      total_return = summary.total_return;
      cagr = perf.cagr;
      sharpe = perf.sharpe;
      max_drawdown = perf.max_drawdown;
      n_rebalances = summary.n_rebalances;
      attributed =
          maybe attr none
            λ (a : MarketAttribution F). some (a.alpha_annual, a.beta, a.information_ratio);
    })

  -- The body of the `try`.
  unfoldable pub try_value :
      PriceData F → String → Dict V → F → Option (List (ℕ × F)) → F → Option (SweepPoint F)
  try_value prices param base rf benchmark_close v = do
    config ← lib.model_validate (insert param (lib.number v) base)
    result ← backtest_of prices config
    point_of prices rf benchmark_close v result

  -- The loop: a value that raises is skipped.
  unfoldable pub sweep_loop :
      PriceData F → String → Dict V → F → Option (List (ℕ × F)) → List F → List (SweepPoint F)
  sweep_loop prices param base rf benchmark_close [] = []
  sweep_loop prices param base rf benchmark_close (v ∷ values) =
      let points = sweep_loop prices param base rf benchmark_close values in
      maybe (try_value prices param base rf benchmark_close v) points λ point. point ∷ points

  unfoldable pub sweep_parameter :
      PriceData F
      → String
      → List F
      → Dict V
      → String
      → F
      → Option (List (ℕ × F))
      → Option (List (SweepPoint F))
  sweep_parameter prices param values base strategy rf benchmark_close =
      if lacks_prices prices || not (str_eq strategy "momentum")
      then none
      else some (sweep_loop prices param base rf benchmark_close values)
