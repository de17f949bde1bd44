-- ===== src/Pairs/OuProcess.antt =====
-- src/quant_pilot/engine/models/ou_process.py, and `engle_granger`, `benjamini_hochberg` and
-- `cusum_break` of src/quant_pilot/engine/strategies/cointegration.py. What numpy, statsmodels and the
-- module `math` compute is a parameter; `none` is an exception of theirs.
use quant_pilot.Base.{
  ℕ, suc, ◌-◌ as minus_ℕ, Bool, true, false, not, ◌&&◌, ◌||◌, Option, none, some, List, [], ◌∷◌,
  map, keep, length, drop, ltb, if◌then◌else◌, maybe,
}
use quant_pilot.Base.Int.{pos}
use quant_pilot.Float.{
  Float, ◌+◌, ◌-◌, ◌*◌, ◌/◌, abs, negate, nought, one, of_int, literal, lt, le, eq,
}
use quant_pilot.Pairs.{OuParams, is_nan}

pub record Statistics (F : Type 0) : Type 0 where
  pub log : F → F
  pub sum : List F → F
  pub mean : List F → F
  -- `std(ddof=1)`
  pub std : List F → F
  pub cumsum : List F → List F
  pub sort : List F → List F
  pub max : List F → F
  -- `np.polyfit(x, y, 1)`, slope and intercept
  pub polyfit : List (F × F) → Option (F × F)
  -- `np.linalg.lstsq` on a column of ones and x: intercept and slope
  pub lstsq : List (F × F) → Option (F × F)
  -- the p-value of `adfuller(resid, autolag="AIC")`
  pub adfuller : List F → Option F

-- `zip`
abbrev pub zip_lists : {A : Type 0} → List A → List A → List (A × A)
zip_lists (x ∷ xs) (y ∷ ys) = (x, y) ∷ zip_lists xs ys
zip_lists _ _ = []

module _ {F : Type 0} ⦃d : Float F⦄ where
  -- `np.arange(1, m + 1) / m * alpha` at place i
  abbrev pub threshold : ℕ → F → ℕ → F
  threshold m alpha i = of_int (pos i) / of_int (pos m) * alpha

  -- `ranked[np.max(np.flatnonzero(passed))]`, from place i on; `none` where nothing passed.
  unfoldable pub cutoff_from : ℕ → F → ℕ → List F → Option F
  cutoff_from m alpha i [] = none
  cutoff_from m alpha i (r ∷ ranked) =
      maybe (cutoff_from m alpha (suc i) ranked)
        (if le r (threshold m alpha i) then some r else none) λ cutoff. some cutoff

module _ {F : Type 0} ⦃d : Float F⦄ (np : Statistics F) where
  unfoldable pub half_life : F → F
  half_life theta = if le theta nought then d.infinity else np.log (literal 2 0) / theta

  unfoldable pub equilibrium_std : F → F → F
  equilibrium_std theta sigma =
      if le theta nought then d.infinity else sigma / d.sqrt (literal 2 0 * theta)

  abbrev square : F → F
  square x = x * x

  -- `fit_ou(series)` with `dt = 1.0`
  unfoldable pub fit_ou : F → List F → Option (OuParams F)
  fit_ou mr_tstat x =
      if ltb (length x) 3
      then none
      else maybe (np.polyfit (zip_lists x (drop 1 x))) none λ (b, a).
        let residuals = map (λ (prev, next). next - (a + b * prev)) (zip_lists x (drop 1 x)) in
        let n = minus_ℕ (length residuals) 2 in
        let dof = of_int (pos (if ltb n 1 then 1 else n)) in
        let sigma_eps = d.sqrt (np.sum (map square residuals) / dof) in
        let x_prev = map (λ (prev, next). prev) (zip_lists x (drop 1 x)) in
        let sxx = np.sum (map (λ v. square (v - np.mean x_prev)) x_prev) in
        let se_b = if lt nought sxx then d.sqrt (sigma_eps * sigma_eps / sxx) else d.infinity in
        let t_stat = if d.is_finite se_b && lt nought se_b then (b - one) / se_b else nought in
        if lt nought b && lt b one && lt t_stat mr_tstat
        then (let theta = negate (np.log b) / one in
            some (record {
              theta = theta;
              mu = a / (one - b);
              sigma = sigma_eps * d.sqrt (literal 2 0 * theta / (one - b * b));
              half_life = half_life theta;
              is_mean_reverting = true;
            }))
        else some (record {
          theta = nought;
          mu = np.mean x;
          sigma = sigma_eps;
          half_life = d.infinity;
          is_mean_reverting = false;
        })

  unfoldable pub ou_zscore : F → OuParams F → F
  ou_zscore value params =
      let sd = equilibrium_std params.theta params.sigma in
      if not (d.is_finite sd) || eq sd nought then nought else (value - params.mu) / sd

  -- `x[-1]`; an empty array raises.
  unfoldable pub spread_zscore : List F → OuParams F → Option F
  spread_zscore [] params = none
  spread_zscore (x ∷ []) params = some (ou_zscore x params)
  spread_zscore (x ∷ y ∷ xs) params = spread_zscore (y ∷ xs) params

  -- Hedge ratio, intercept and p-value.
  unfoldable pub engle_granger : List F → List F → Option (F × F × F)
  engle_granger y x =
      let df = keep (λ (yv, xv). not (is_nan yv) && not (is_nan xv)) (zip_lists y x) in
      maybe (np.lstsq (map (λ (yv, xv). (xv, yv)) df)) none λ (intercept, hedge).
        maybe (np.adfuller (map (λ (yv, xv). yv - (intercept + hedge * xv)) df)) none
          λ pvalue. some (hedge, intercept, pvalue)

  unfoldable pub benjamini_hochberg : List F → F → List Bool
  benjamini_hochberg [] alpha = []
  benjamini_hochberg (p ∷ ps) alpha =
      maybe (cutoff_from (length (p ∷ ps)) alpha 1 (np.sort (p ∷ ps))) (map (λ q. false) (p ∷ ps))
        λ cutoff. map (λ q. le q cutoff) (p ∷ ps)

  unfoldable pub cusum_break : List F → F → Bool
  cusum_break spread limit =
      let s = keep (λ v. not (is_nan v)) spread in
      let sd = np.std s in
      if ltb (length s) 3
      then false
      else if eq sd nought
      then false
      else lt limit (
          np.max (
            map (λ c. abs (c / (sd * d.sqrt (of_int (pos (length s))))))
              (np.cumsum (map (λ v. v - np.mean s) s))))
