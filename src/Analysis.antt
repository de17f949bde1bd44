-- ===== src/Analysis.antt =====
-- src/quant_pilot/engine/analysis/performance.py. Sums, deviations and powers of numpy and pandas are
-- parameters; returns are without NaN where the source drops them.
pub mod Drawdowns
pub mod Significance
pub mod Attribution
pub mod Computable
use quant_pilot.Base.{
  ℕ, suc, Bool, true, false, not, ◌&&◌, Option, none, some, List, [], ◌∷◌, map, keep, length, ltb,
  maybe, if◌then◌else◌,
}
use quant_pilot.Base.Int.{pos}
use quant_pilot.Float.{Float, ◌+◌, ◌-◌, ◌*◌, ◌/◌, abs, nought, one, of_int, lt, eq, max, min}

pub record PerformanceStats (F : Type 0) : Type 0 where
  pub total_return : F
  pub cagr : F
  pub ann_vol : F
  pub sharpe : F
  pub sortino : F
  pub calmar : F
  pub max_drawdown : F
  pub max_drawdown_days : ℕ
  pub hit_rate : F
  pub n_periods : ℕ

pub record Numpy (F : Type 0) : Type 0 where
  pub mean : List F → F
  -- `std(ddof=1)`
  pub std : List F → F
  pub prod : List F → F
  pub cumprod : List F → List F
  pub cummax : List F → List F
  pub smallest : List F → F
  -- `np.minimum`
  pub minimum : F → F → F
  -- `**`; `none` is the `TypeError` that `float` of a complex power raises, below zero.
  pub power : F → F → Option F
  -- Division of series, where zero divides too.
  pub divide : F → F → F

module _ {F : Type 0} ⦃d : Float F⦄ where
  -- The loop of `_max_drawdown_days`, with `longest` and `current`.
  unfoldable pub days_from : ℕ → ℕ → List F → ℕ
  days_from longest current [] = longest
  days_from longest current (v ∷ dd) =
      let current' = if lt v nought then suc current else 0 in
      let longest' = if ltb longest current' then current' else longest in
      days_from longest' current' dd

  unfoldable pub max_drawdown_days : List F → ℕ
  max_drawdown_days dd = days_from 0 0 dd

  abbrev pub is_nan : F → Bool
  is_nan x = not (eq x x)

module _ {F : Type 0} ⦃d : Float F⦄ (np : Numpy F) where
  abbrev pub ratios : List F → List F → List F
  ratios (x ∷ xs) (y ∷ ys) = (np.divide x y - one) ∷ ratios xs ys
  ratios _ _ = []

  unfoldable pub drawdown_series : List F → List F
  drawdown_series returns =
      let equity = np.cumprod (map (λ r. one + r) returns) in ratios equity (np.cummax equity)

  unfoldable pub sharpe_ratio : List F → F → ℕ → F
  sharpe_ratio r rf periods_per_year =
      let sd = np.std r in
      if eq sd nought
      then nought
      else (np.mean r - rf / of_int (pos periods_per_year))
        / sd
        * d.sqrt (of_int (pos periods_per_year))

  unfoldable pub sortino_ratio : List F → F → ℕ → F
  sortino_ratio r rf periods_per_year =
      let excess = map (λ x. x - rf / of_int (pos periods_per_year)) r in
      let downside = map (λ x. np.minimum x nought) excess in
      let dd = d.sqrt (np.mean (map (λ x. x * x) downside)) in
      if eq dd nought then nought else np.mean excess / dd * d.sqrt (of_int (pos periods_per_year))

  -- `none` is the `ValueError`. The number of periods in a year is not zero.
  unfoldable pub performance_stats : List F → F → ℕ → Option (PerformanceStats F)
  performance_stats returns rf periods_per_year =
      let r = keep (λ x. not (is_nan x)) returns in
      let n = length r in
      let total_return = np.prod (map (λ x. one + x) r) - one in
      let years = of_int (pos periods_per_year) / of_int (pos n) in
      let dd = drawdown_series r in
      let max_dd = np.smallest dd in
      if ltb n 2
      then none
      else maybe (np.power (one + total_return) years) none λ growth.
        let cagr = growth - one in
        some (record {
          total_return = total_return;
          cagr = cagr;
          ann_vol = np.std r * d.sqrt (of_int (pos periods_per_year));
          sharpe = sharpe_ratio r rf periods_per_year;
          sortino = sortino_ratio r rf periods_per_year;
          calmar = if lt max_dd nought then cagr / abs max_dd else nought;
          max_drawdown = max_dd;
          max_drawdown_days = max_drawdown_days dd;
          hit_rate = of_int (pos (length (keep (λ x. lt nought x) r))) / of_int (pos n);
          n_periods = n;
        })
