-- ===== src/Analysis/Significance.antt =====
-- src/quant_pilot/engine/analysis/validation.py. Moments, quantiles, the normal distribution and roots
-- are parameters; `none` is an exception.
use quant_pilot.Base.{
  ℕ, zero, suc, Option, none, some, List, map, length, ltb, leb, if◌then◌else◌, ◌>>=◌,
}
use quant_pilot.Base.Int.{pos, negsuc, ℤ}
use quant_pilot.Float.{Float, ◌+◌, ◌-◌, ◌*◌, ◌/◌, nought, one, literal, of_int, lt, max, quotient}
use quant_pilot.Simulation.{Generator, stationary_bootstrap}

pub record SharpeSignificance (F : Type 0) : Type 0 where
  pub sharpe : F
  pub probabilistic_sharpe : F
  pub deflated_sharpe : F
  pub p_value : F
  pub ci_low : F
  pub ci_high : F
  pub n_trials : ℕ
  pub n_obs : ℕ

-- What numpy, scipy and `math` compute.
pub record Moments (F : Type 0) : Type 0 where
  pub mean : List F → F
  -- `std(ddof=1)`
  pub std : List F → F
  -- `stats.skew(r, bias=False)` and `stats.kurtosis(r, fisher=False, bias=False)`
  pub skew : List F → F
  pub kurtosis : List F → F
  pub norm_cdf : F → F
  pub norm_ppf : F → F
  pub quantile : List F → F → F
  -- `math.sqrt`
  pub sqrt : F → Option F
  -- `math.e`
  pub e : F

-- `n - 1` for a number of observations
abbrev pub pred_int : ℕ → ℤ
pred_int zero = negsuc 0
pred_int (suc n) = pos n

module _ {F : Type 0} ⦃d : Float F⦄ (np : Moments F) where
  -- `_per_period_sharpe`
  unfoldable pub per_period_sharpe : List F → F
  per_period_sharpe r = let sd = np.std r in if lt nought sd then np.mean r / sd else nought

  unfoldable pub annualized_sharpe : List F → ℕ → Option F
  annualized_sharpe r periods_per_year = do
    root ← np.sqrt (of_int (pos periods_per_year))
    some (per_period_sharpe r * root)

  -- `1.0 - skew * sr + (kurt - 1.0) / 4.0 * sr * sr`
  abbrev pub spread_of_sharpe : List F → F
  spread_of_sharpe r =
      let sr = per_period_sharpe r in
      one - np.skew r * sr + (np.kurtosis r - one) / literal 4 0 * sr * sr

  -- The floor of the square root is 1e-12.
  unfoldable pub probabilistic_sharpe_ratio : List F → F → Option F
  probabilistic_sharpe_ratio r benchmark_sr = do
    denom ← np.sqrt (max (literal 1 12) (spread_of_sharpe r))
    root ← np.sqrt (of_int (pred_int (length r)))
    z ← quotient ((per_period_sharpe r - benchmark_sr) * root) denom
    some (np.norm_cdf z)

  -- `_expected_max_sharpe`
  unfoldable pub expected_max_sharpe : ℕ → F → F
  expected_max_sharpe n_trials sr_std =
      if leb n_trials 1
      then nought
      else (let euler = literal 5_772_156_649_015_329 16 in
          let a = np.norm_ppf (one - one / of_int (pos n_trials)) in
          let b = np.norm_ppf (one - one / (of_int (pos n_trials) * np.e)) in
          sr_std * ((one - euler) * a + euler * b))

  -- `trials_sr_std`
  unfoldable pub trials_deviation : List F → Option F → Option F
  trials_deviation r (some sr_std) = some sr_std
  trials_deviation r none = do
    share ← quotient (spread_of_sharpe r) (of_int (pred_int (length r)))
    np.sqrt (max (literal 1 12) share)

  unfoldable pub deflated_sharpe_ratio : List F → ℕ → Option F → Option F
  deflated_sharpe_ratio r n_trials trials_sr_std = do
    sr_std ← trials_deviation r trials_sr_std
    probabilistic_sharpe_ratio r (expected_max_sharpe n_trials sr_std)

module _ {F G : Type 0} ⦃d : Float F⦄ (np : Moments F) (rng : Generator F G) where
  -- The default of `expected_block` is 10.0, and of `ci` 0.95.
  unfoldable pub bootstrap_sharpe_ci : List F → ℕ → ℕ → Option ℕ → Option (F × F)
  bootstrap_sharpe_ci r n_resamples periods_per_year seed = do
    samples ← stationary_bootstrap rng r (literal 10 0) n_resamples none seed
    scale ← np.sqrt (of_int (pos periods_per_year))
    let srs = map (λ row. per_period_sharpe np row * scale) samples
    let p = (one - literal 95 2) / literal 2 0
    some (np.quantile srs p, np.quantile srs (one - p))

  unfoldable pub sharpe_significance : List F → ℕ → ℕ → ℕ → Option ℕ → Option (SharpeSignificance F)
  sharpe_significance r n_trials periods_per_year n_resamples seed = do
    psr ← probabilistic_sharpe_ratio np r nought
    dsr ← if ltb 1 n_trials then deflated_sharpe_ratio np r n_trials none else some psr
    bounds ← bootstrap_sharpe_ci r n_resamples periods_per_year seed
    annual ← annualized_sharpe np r periods_per_year
    some (record {
      sharpe = annual;
      probabilistic_sharpe = psr;
      deflated_sharpe = dsr;
      p_value = one - psr;
      ci_low = bounds.0;
      ci_high = bounds.1;
      n_trials = n_trials;
      n_obs = length r;
    })
