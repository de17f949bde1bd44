-- ===== src/Momentum.antt =====
-- src/quant_pilot/engine/strategies/momentum.py. A frame of closes is its rows by date, ascending;
-- dates are days. What pandas and numpy compute is a parameter: a statistic of the rows up to a date
-- is given those rows.
pub mod Causal
pub mod Prefix
pub mod Samples
mod Tests
use quant_pilot.Base.{
  ℕ, suc, String, Bool, true, false, not, ◌&&◌, ◌||◌, Option, none, some, List, [], ◌∷◌, map, keep,
  any, length, drop, ltb, leb, ◌-◌ as minus_ℕ, ◌+◌ as add_ℕ, ◌==◌, is_empty, str_eq, maybe,
  if◌then◌else◌,
}
use quant_pilot.Base.Int.{ℤ, pos, negsuc}
use quant_pilot.Float.{Float, ◌+◌, ◌-◌, ◌*◌, ◌/◌, abs, nought, one, of_int, lt, le, eq}

pub record MomentumConfig (F : Type 0) : Type 0 where
  pub lookbacks : List ℕ
  pub skip_months : ℕ
  pub long_pct : F
  pub vol_window : ℕ
  pub turnover_band : F
  pub vrp_window : ℕ
  pub min_exposure : F
  pub gross_exposure : F

abbrev pub Row : Type 0 → Type 0
Row F = String → F

-- A row of the eligibility matrix; a symbol without a column is `none`.
abbrev pub Eligibility : Type 0
Eligibility = ℕ → Option (String → Option Bool)

pub record Pandas (F : Type 0) : Type 0 where
  -- `t - pd.DateOffset(months=n)`
  pub months_before : ℕ → ℕ → ℕ
  -- `to_period("M")`
  pub month_of : ℕ → ℕ
  -- `asof`: the last of the rows without NaN
  pub asof : List (Row F) → Row F
  -- `pct_change().rolling(window).std()` at the last of the closes
  pub rolling_deviation : ℕ → List F → F
  -- The keys of the n largest values.
  pub nlargest : ℕ → List (String × F) → List String
  -- The mean of the values that are not NaN.
  pub mean : List F → F
  pub sum : List F → F
  -- Division of columns, where zero divides too.
  pub divide : F → F → F

-- `.loc[:t]`
abbrev pub upto : {A : Type 0} → ℕ → List (ℕ × A) → List (ℕ × A)
upto t rows = keep (λ r. leb r.0 t) rows

-- `.tail(n)`
abbrev pub tail_rows : {A : Type 0} → ℕ → List A → List A
tail_rows n rows = drop (minus_ℕ (length rows) n) rows

abbrev pub last_or : {A : Type 0} → A → List A → A
last_or x [] = x
last_or x (y ∷ ys) = last_or y ys

module _ {F : Type 0} ⦃d : Float F⦄ (pd : Pandas F) (config : MomentumConfig F)
    (symbols : List String) where
  -- `close.asof(t - pd.DateOffset(months=n))`
  abbrev pub asof_months : List (ℕ × Row F) → ℕ → ℕ → Row F
  asof_months close t n = pd.asof (map (λ r. r.1) (upto (pd.months_before t n) close))

  -- `_momentum_score`
  unfoldable pub momentum_score : List (ℕ × Row F) → ℕ → Row F
  momentum_score close t symbol = pd.mean (
      map
        (λ (lb : ℕ).
          pd.divide (asof_months close t config.skip_months symbol)
            (asof_months close t (add_ℕ lb config.skip_months) symbol)
          - one)
        config.lookbacks)

  -- `eligible.reindex(score.index).fillna(False)`
  abbrev pub is_member : (String → Option Bool) → String → Bool
  is_member eligible symbol = maybe (eligible symbol) false λ b. b

  -- The symbols with a score, those in the index where its members of the day are known.
  unfoldable pub scores_of : List (ℕ × Row F) → Option Eligibility → ℕ → List (String × F)
  scores_of close membership t =
      let score = momentum_score close t in
      let scored = keep (λ s. eq (score s) (score s)) symbols in
      let kept =
        maybe (maybe membership none λ m. m t) scored
          λ eligible. keep (is_member eligible) scored in
      map (λ s. (s, score s)) kept

  -- `(1.0 / vt).replace([np.inf, -np.inf], np.nan).fillna(0.0)`
  unfoldable pub inverse_vol : List (ℕ × Row F) → ℕ → String → F
  inverse_vol close t symbol =
      let vt = pd.rolling_deviation config.vol_window (map (λ r. r.1 symbol) (upto t close)) in
      let inv = pd.divide one vt in if d.is_finite inv then inv else nought

  -- `_regime_scale`
  unfoldable pub regime_scale : Option (List (ℕ × F)) → ℕ → F
  regime_scale none t = one
  regime_scale (some vrp) t =
      let window = map (λ r. r.1) (tail_rows config.vrp_window (upto t vrp)) in
      if not (any (λ r. r.0 == t) vrp)
      then one
      else if ltb (length window) 2
      then one
      else (let below = keep (λ v. lt v (last_or nought window)) window in
          let pct = of_int (pos (length below)) / of_int (pos (length window)) in
          config.min_exposure + (one - config.min_exposure) * (one - pct))

  -- `max(1, math.floor(len(score) * self.cfg.long_pct))`; on a product below one the rounding of
  -- `floor` does not matter. `none` is the exception for a product that no integer is near.
  unfoldable pub n_select : ℕ → Option ℕ
  n_select n =
      maybe (d.to_int (of_int (pos n) * config.long_pct)) none
        λ k. some (elim k [ pos m ↦ (if ltb m 1 then 1 else m) | negsuc m ↦ 1 ])

  -- `_target_row`
  unfoldable pub target_row :
      List (ℕ × Row F) → Option Eligibility → Option (List (ℕ × F)) → ℕ → Option (Row F)
  target_row close membership vrp t =
      let score = scores_of close membership t in
      if is_empty score
      then some (λ s. nought)
      else maybe (n_select (length score)) none λ n.
        let chosen = pd.nlargest n score in
        let inv = inverse_vol close t in
        let total = pd.sum (map inv chosen) in
        let w : Row F =
          λ s. if lt nought total then inv s / total else one / of_int (pos (length chosen)) in
        let scale = regime_scale vrp t * config.gross_exposure in
        some (λ s. if any (λ c. str_eq c s) chosen then w s * scale else nought)

  -- `_apply_band`
  unfoldable pub apply_band : Row F → Row F → Row F
  apply_band prev target s =
      if le config.turnover_band (abs (target s - prev s)) then target s else prev s

  -- The loop over the rebalance dates.
  unfoldable pub weights_from :
      List (ℕ × Row F)
      → Option Eligibility
      → Option (List (ℕ × F))
      → Row F
      → List ℕ
      → Option (List (ℕ × Row F))
  weights_from close membership vrp prev [] = some []
  weights_from close membership vrp prev (t ∷ ts) =
      maybe (target_row close membership vrp t) none λ target.
        let banded = if lt nought config.turnover_band then apply_band prev target else target in
        maybe (weights_from close membership vrp banded ts) none λ rest. some ((t, banded) ∷ rest)

  -- `_rebalance_dates`, with the months that were seen.
  unfoldable pub rebalance_dates : List ℕ → List ℕ → List ℕ
  rebalance_dates seen [] = []
  rebalance_dates seen (t ∷ index) =
      let rest = rebalance_dates (pd.month_of t ∷ seen) index in
      if any (λ m. m == pd.month_of t) seen then rest else t ∷ rest

  unfoldable pub generate_weights :
      List (ℕ × Row F) → Option Eligibility → Option (List (ℕ × F)) → Option (List (ℕ × Row F))
  generate_weights close membership vrp =
      weights_from close membership vrp (λ s. nought) (rebalance_dates [] (map (λ r. r.0) close))
