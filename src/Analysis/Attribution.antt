-- ===== src/Analysis/Attribution.antt =====
-- src/quant_pilot/engine/analysis/attribution.py. The regression is over the rows without NaN: the
-- excess return with the factors of its date. What numpy computes on matrices is a parameter; `none`
-- is an exception.
use quant_pilot.Base.{
  ℕ, zero, suc, String, Bool, Option, none, some, List, [], ◌∷◌, map, keep, length, leb, maybe, not,
  any, if◌then◌else◌, ◌>>=◌, ◌+◌ as add_ℕ,
}
use quant_pilot.Base.Int.{ℤ, pos, negsuc}
use quant_pilot.Base.Dict.{Dict}
use quant_pilot.Float.{Float, ◌+◌, ◌-◌, ◌*◌, ◌/◌, abs, nought, one, literal, of_int, lt}
use quant_pilot.Analysis.{is_nan}

pub record FactorAttribution (F : Type 0) : Type 0 where
  pub alpha_annual : F
  pub alpha_tstat : F
  pub betas : Dict F
  pub r_squared : F
  pub n_obs : ℕ

-- numpy's operations on matrices M; a vector is a matrix of one column.
pub record Linear (F M : Type 0) : Type 0 where
  pub mean : List F → F
  pub sum : List F → F
  -- `**`
  pub power : F → F → F
  -- `np.sqrt` of an element
  pub sqrt : F → F
  -- `np.column_stack`, of rows
  pub of_rows : List (List F) → M
  pub of_column : List F → M
  pub entries : M → List F
  pub transpose : M → M
  -- `@`
  pub matmul : M → M → M
  pub plus : M → M → M
  pub minus : M → M → M
  -- `w * m` and `m / n`
  pub scaled : F → M → M
  pub divided : M → F → M
  -- `X * resid[:, None]`
  pub times_rows : M → M → M
  -- `m[j:]` and `m[:-j]`
  pub rows_from : ℕ → M → M
  pub rows_without : ℕ → M → M
  -- `np.linalg.inv`; `none` is a singular matrix
  pub inv : M → Option M
  pub diag : M → List F

module _ {F : Type 0} ⦃d : Float F⦄ where
  -- `alpha_is_significant`
  unfoldable pub alpha_is_significant : FactorAttribution F → Bool
  alpha_is_significant a = lt (literal 2 0) (abs a.alpha_tstat)

  -- A row of the two frames, side by side.
  abbrev pub is_complete : F × List F → Bool
  is_complete (y, f) = not (any is_nan (y ∷ f))

  -- `{col: float(beta[i + 1]) ...}`
  unfoldable pub named_betas : List String → List F → Dict F
  named_betas (c ∷ columns) (b ∷ betas) = (c, b) ∷ named_betas columns betas
  named_betas _ _ = []

module _ {F M : Type 0} ⦃d : Float F⦄ (np : Linear F M) where
  -- `_newey_west_lags`; of a number of zero or more, `int` and `floor` agree.
  unfoldable pub newey_west_lags : ℕ → Option ℤ
  newey_west_lags n =
      d.to_int (literal 4 0 * np.power (of_int (pos n) / literal 100 0) (literal 2 0 / literal 9 0))

  -- The number of rounds of `range(1, lags + 1)`
  abbrev pub rounds : ℤ → ℕ
  rounds (pos k) = k
  rounds (negsuc k) = 0

  -- The loop over the lags from j on, with `s`.
  unfoldable pub hac_loop : M → F → ℤ → ℕ → ℕ → M → M
  hac_loop scores n lags zero j s = s
  hac_loop scores n lags (suc k) j s =
      let w = one - of_int (pos j) / (of_int lags + one) in
      let g =
        np.divided (np.matmul (np.transpose (np.rows_from j scores)) (np.rows_without j scores))
          n in
      hac_loop scores n lags k (suc j) (np.plus s (np.scaled w (np.plus g (np.transpose g))))

  -- The standard errors, from `X` and `resid`.
  unfoldable pub hac_errors : M → M → F → ℤ → Option (List F)
  hac_errors X resid n lags = do
    let scores = np.times_rows X resid
    let start = np.divided (np.matmul (np.transpose scores) scores) n
    let s = hac_loop scores n lags (rounds lags) 1 start
    bread ← np.inv (np.divided (np.matmul (np.transpose X) X) n)
    some (map np.sqrt (np.diag (np.divided (np.matmul (np.matmul bread s) bread) n)))

  -- The report of a regression that was solved.
  unfoldable pub report_of :
      List String → ℕ → List F → List F → F × List F → F × List F → FactorAttribution F
  report_of columns periods_per_year y resid (beta0, betas) (alpha_se, _) =
      let centre = np.mean y in
      let sst = np.sum (map (λ v. (v - centre) * (v - centre)) y) in
      let sse = np.sum (map (λ e. e * e) resid) in
      record {
        alpha_annual = beta0 * of_int (pos periods_per_year);
        alpha_tstat = if lt nought alpha_se then beta0 / alpha_se else nought;
        betas = named_betas columns betas;
        r_squared = if lt nought sst then one - sse / sst else nought;
        n_obs = length y;
      }

  -- `beta[0]` and the others; an empty array raises.
  abbrev pub split_first : List F → Option (F × List F)
  split_first [] = none
  split_first (x ∷ xs) = some (x, xs)

  -- The regression of `y` on the columns of `X`.
  unfoldable pub regress : List String → ℕ → List F → M → Option ℤ → Option (FactorAttribution F)
  regress columns periods_per_year y X hac_lags = do
    xtx_inv ← np.inv (np.matmul (np.transpose X) X)
    let beta = np.matmul (np.matmul xtx_inv (np.transpose X)) (np.of_column y)
    let resid = np.minus (np.of_column y) (np.matmul X beta)
    lags ← maybe hac_lags (newey_west_lags (length y)) some
    se ← hac_errors X resid (of_int (pos (length y))) lags
    coefficients ← split_first (np.entries beta)
    errors ← split_first se
    some (report_of columns periods_per_year y (np.entries resid) coefficients errors)

  -- The number of periods in a year is not zero.
  unfoldable pub factor_attribution :
      List String → List (F × List F) → F → ℕ → Option ℤ → Option (FactorAttribution F)
  factor_attribution columns rows rf periods_per_year hac_lags =
      let df = keep is_complete rows in
      let y = map (λ (v, f). v - rf / of_int (pos periods_per_year)) df in
      let X = np.of_rows (map (λ (v, f). one ∷ f) df) in
      if leb (length df) (add_ℕ (length columns) 1)
      then none
      else regress columns periods_per_year y X hac_lags
