-- ===== src/Simulation.antt =====
-- src/quant_pilot/engine/models/monte_carlo.py, and `reversion_robustness` of
-- src/quant_pilot/engine/strategies/pairs_trading.py. The random generator and what numpy, scipy and
-- `math` compute are parameters; the state of the generator is passed along in the order of the draws,
-- and `none` is an exception. A matrix of `simulate_ou` is the list of its columns.
pub mod Bootstrap
pub mod Paths
pub mod Samples
mod Tests
use quant_pilot.Base.{
  ℕ, zero, suc, ◌≡◌, ◌+◌ as add_ℕ, ◌%◌, Bool, true, false, ◌||◌, Option, none, some, List, [], ◌∷◌,
  map, keep, length, is_empty, maybe, ◌==◌, ◌<◌, if◌then◌else◌, ◌>>=◌,
}
use quant_pilot.Base.Int.{pos}
use quant_pilot.Float.{
  Float, ◌+◌, ◌-◌, ◌*◌, ◌/◌, negate, nought, one, literal, of_int, lt, le, quotient,
}
use quant_pilot.Risk.Sizing.{VarResult, VarDistribution, historical, student_t}
use quant_pilot.Pairs.{OuParams}
use quant_pilot.Pairs.OuProcess.{Statistics, equilibrium_std, zip_lists}

-- numpy's generator: each draw gives the next state.
pub record Generator (F G : Type 0) : Type 0 where
  -- `default_rng(seed)`
  pub default_rng : Option ℕ → G
  -- `integers(0, n)`
  pub integers : ℕ → G → G × ℕ
  -- `random()`
  pub random : G → G × F
  -- `standard_normal(n)`
  pub standard_normal : ℕ → G → G × List F

-- A draw from 0 to n is below n.
pub record IsGenerator {F G : Type 0} (rng : Generator F G) : Type 0 where
  pub integers-lt : (n : ℕ) (g : G) → 0 < n → (rng.integers n g).1 < n
  pub length-standard_normal : (n : ℕ) (g : G) → length (rng.standard_normal n g).1 ≡ n

-- What numpy, scipy and `math` compute.
pub record Numerics (F : Type 0) : Type 0 where
  -- `math.sqrt`
  pub sqrt : F → Option F
  pub exp : F → F
  pub cumsum : List F → List F
  pub mean : List F → F
  pub quantile : List F → F → F
  -- `/` of numpy's numbers, where zero divides too
  pub divide : F → F → F
  -- `stats.t.fit`, with `df`, `loc` and `scale`, `stats.t.ppf` and `stats.t.pdf`
  pub t_fit : List F → F × (F × F)
  pub t_ppf : F → F → F
  pub t_pdf : F → F → F

-- `x[i]`; `none` is the `IndexError`.
abbrev pub element : {A : Type 0} → ℕ → List A → Option A
element i [] = none
element zero (x ∷ xs) = some x
element (suc i) (x ∷ xs) = element i xs

abbrev pub replicate : {A : Type 0} → ℕ → A → List A
replicate zero x = []
replicate (suc n) x = x ∷ replicate n x

-- `length or n`
abbrev pub out_length : Option ℕ → ℕ → ℕ
out_length none n = n
out_length (some len) n = if len == 0 then n else len

module _ {F G : Type 0} ⦃d : Float F⦄ (rng : Generator F G) where
  -- `idx` after one entry of a resample
  unfoldable pub next_index : F → ℕ → ℕ → G → G × ℕ
  next_index p n idx g =
      let (g', u) = rng.random g in if lt u p then rng.integers n g' else (g', add_ℕ idx 1 % n)

  -- One row of `out`, from the index on.
  unfoldable pub resample_row : List F → F → ℕ → ℕ → G → Option (G × List F)
  resample_row r p zero idx g = some (g, [])
  resample_row r p (suc k) idx g = do
    x ← element idx r
    let (g', idx') = next_index p (length r) idx g
    (g'', row) ← resample_row r p k idx' g'
    some (g'', x ∷ row)

  unfoldable pub resample_rows : List F → F → ℕ → ℕ → G → Option (List (List F))
  resample_rows r p out_len zero g = some []
  resample_rows r p out_len (suc k) g = do
    let (g', idx) = rng.integers (length r) g
    (g'', row) ← resample_row r p out_len idx g'
    rows ← resample_rows r p out_len k g''
    some (row ∷ rows)

  unfoldable pub stationary_bootstrap :
      List F → F → ℕ → Option ℕ → Option ℕ → Option (List (List F))
  stationary_bootstrap r expected_block n_resamples len seed = if is_empty r then none else (do
    p ← quotient one expected_block
    resample_rows r p (out_length len (length r)) n_resamples (rng.default_rng seed))

module _ {F G : Type 0} ⦃d : Float F⦄ (rng : Generator F G) (np : Numerics F) where
  -- One row of paths: the start and the exponentials of the summed increments.
  unfoldable pub gbm_path : F → F → F → List F → List F
  gbm_path s0 drift scale z =
      map (λ x. s0 * np.exp x) (nought ∷ np.cumsum (map (λ v. drift + scale * v) z))

  -- `standard_normal((n_paths, n_steps))`, drawn row by row
  unfoldable pub normal_rows : ℕ → ℕ → G → List (List F)
  normal_rows zero n_steps g = []
  normal_rows (suc k) n_steps g =
      let (g', z) = rng.standard_normal n_steps g in z ∷ normal_rows k n_steps g'

  unfoldable pub simulate_gbm : F → F → F → F → ℕ → ℕ → Option ℕ → Option (List (List F))
  simulate_gbm s0 mu sigma T n_paths n_steps seed = do
    dt ← quotient T (of_int (pos n_steps))
    root ← np.sqrt dt
    some (
        map (gbm_path s0 ((mu - literal 5 1 * sigma * sigma) * dt) (sigma * root))
          (normal_rows n_paths n_steps (rng.default_rng seed)))

  -- The column after `column`.
  unfoldable pub ou_step : F → F → F → F → List F → List F → List F
  ou_step theta mu dt sd z column =
      map (λ (x, v). x + theta * (mu - x) * dt + sd * v) (zip_lists column z)

  unfoldable pub ou_columns : F → F → F → F → ℕ → ℕ → List F → G → List (List F)
  ou_columns theta mu dt sd n_paths zero column g = column ∷ []
  ou_columns theta mu dt sd n_paths (suc k) column g =
      let (g', z) = rng.standard_normal n_paths g in
      column ∷ ou_columns theta mu dt sd n_paths k (ou_step theta mu dt sd z column) g'

  unfoldable pub simulate_ou : F → F → F → F → F → ℕ → ℕ → Option ℕ → Option (List (List F))
  simulate_ou x0 theta mu sigma T n_paths n_steps seed = do
    dt ← quotient T (of_int (pos n_steps))
    root ← np.sqrt dt
    some (
        ou_columns theta mu dt (sigma * root) n_paths n_steps (replicate n_paths x0)
          (rng.default_rng seed))

  abbrev pub or_reverted : F → List Bool → List F → List Bool
  or_reverted mu (b ∷ seen) (x ∷ column) = (b || le x mu) ∷ or_reverted mu seen column
  or_reverted mu _ _ = []

  -- `(paths <= mu).any(axis=1)`, with what the columns before gave
  unfoldable pub reverted : F → List Bool → List (List F) → List Bool
  reverted mu seen [] = seen
  reverted mu seen (column ∷ columns) = reverted mu (or_reverted mu seen column) columns

  -- `revert_prob`
  unfoldable pub revert_prob : F → OuParams F → ℕ → ℕ → Option ℕ → F → Option F
  revert_prob x0 ou horizon_days n_paths seed theta = do
    paths ←
        simulate_ou x0 theta ou.mu ou.sigma (of_int (pos horizon_days)) n_paths horizon_days seed
    some (
        np.mean
          (map (λ b. if b then one else nought) (reverted ou.mu (replicate n_paths false) paths)))

  -- `nominal` and `stressed`
  unfoldable pub reversion_robustness :
      Statistics F → OuParams F → ℕ → ℕ → F → F → Option ℕ → Option (F × F)
  reversion_robustness st ou horizon_days n_paths decay start_z seed = do
    let x0 = ou.mu + start_z * equilibrium_std st ou.theta ou.sigma
    nominal ← revert_prob x0 ou horizon_days n_paths seed ou.theta
    stressed ← revert_prob x0 ou horizon_days n_paths seed (ou.theta * decay)
    some (nominal, stressed)

module _ {F : Type 0} ⦃d : Float F⦄ (np : Numerics F) where
  unfoldable pub var_cvar : List F → F → VarDistribution → Option (VarResult F)
  var_cvar [] alpha method = none
  var_cvar (x ∷ xs) alpha historical =
      let q = np.quantile (x ∷ xs) (one - alpha) in
      let tail = keep (λ v. le v q) (x ∷ xs) in
      some (record {
        var = negate q;
        cvar = if is_empty tail then negate q else negate (np.mean tail);
        alpha = alpha;
        method = historical;
        observations = length (x ∷ xs);
      })
  var_cvar (x ∷ xs) alpha student_t = do
    let p = one - alpha
    let (df, (loc, scale)) = np.t_fit (x ∷ xs)
    let x_p = np.t_ppf p df
    density ← quotient (np.t_pdf x_p df) p
    let es_std = negate density * np.divide (df + x_p * x_p) (df - one)
    some (record {
      var = negate (loc + scale * x_p);
      cvar = negate (loc + scale * es_std);
      alpha = alpha;
      method = student_t;
      observations = length (x ∷ xs);
    })
