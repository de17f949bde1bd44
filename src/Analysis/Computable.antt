-- ===== src/Analysis/Computable.antt =====
-- Where the significance of a Sharpe ratio can be computed: on every series that has statistics.
use quant_pilot.Base.{
  ℕ, ◌≡◌, ◌≤◌, Bool, false, Option, none, some, List, [], ◌∷◌, keep, length, arith, IsSome,
  IsSome-value,
}
use quant_pilot.Base.Int.{pos}
use quant_pilot.Float.{Float, eq, nought, literal, of_int, max}
use quant_pilot.Simulation.{Generator, IsGenerator}
use quant_pilot.Simulation.Bootstrap.{stationary_bootstrap-IsResample}
use quant_pilot.Analysis.{PerformanceStats, is_nan, performance_stats}
use quant_pilot.Analysis.Significance.{
  Moments, spread_of_sharpe, annualized_sharpe, probabilistic_sharpe_ratio, bootstrap_sharpe_ci,
  sharpe_significance,
}

-- `math.sqrt` has a root of every number that is not negative, which is not zero above 1e-12; and ten
-- is not zero.
pub record HasRoots {F : Type 0} ⦃d : Float F⦄ (np : Moments F) : Type 0 where
  pub floor_root :
      (x : F) → (y : F) × (np.sqrt (max (literal 1 12) x) ≡ some y) × (eq y nought ≡ false)
  pub int_root : (n : ℕ) → (y : F) × (np.sqrt (of_int (pos n)) ≡ some y)
  pub ten_nonzero : eq (literal 10 0) (nought {F = F}) ≡ false

length-keep : {A : Type 0} (p : A → Bool) (xs : List A) → length (keep p xs) ≤ length xs
length-keep p [] = ground arith
length-keep p (x ∷ xs) = ground (arith, length-keep p xs)

module _ {F G : Type 0} ⦃d : Float F⦄ (np : Moments F) (roots : HasRoots np) (rng : Generator F G)
    (laws : IsGenerator rng) where
  probabilistic_sharpe_ratio-IsSome :
      (x : F) (r : List F) (benchmark_sr : F)
      → IsSome (probabilistic_sharpe_ratio np (x ∷ r) benchmark_sr)
  unfolding probabilistic_sharpe_ratio
  probabilistic_sharpe_ratio-IsSome x r benchmark_sr =
      let (denom, rooted, divides) = roots.floor_root (spread_of_sharpe np (x ∷ r)) in
      let (root, counted) = roots.int_root (length r) in rw rooted (rw counted (rw divides tt))

  bootstrap_sharpe_ci-IsSome :
      (x : F) (r : List F) (n_resamples periods_per_year : ℕ) (seed : Option ℕ)
      → IsSome (bootstrap_sharpe_ci np rng (x ∷ r) n_resamples periods_per_year seed)
  unfolding bootstrap_sharpe_ci
  bootstrap_sharpe_ci-IsSome x r n_resamples periods_per_year seed =
      let (rows, made, _, _) =
        stationary_bootstrap-IsResample rng laws (x ∷ r) (literal 10 0) n_resamples none seed
          (ground arith) roots.ten_nonzero in
      let (root, rooted) = roots.int_root periods_per_year in rw made (rw rooted tt)

  sharpe_significance-IsSome :
      (x : F) (r : List F) (periods_per_year n_resamples : ℕ) (seed : Option ℕ)
      → IsSome (sharpe_significance np rng (x ∷ r) 1 periods_per_year n_resamples seed)
  unfolding sharpe_significance annualized_sharpe
  sharpe_significance-IsSome x r periods_per_year n_resamples seed =
      let (psr, e1) =
        IsSome-value (probabilistic_sharpe_ratio np (x ∷ r) nought)
          (probabilistic_sharpe_ratio-IsSome x r nought) in
      let (ci, e2) =
        IsSome-value (bootstrap_sharpe_ci np rng (x ∷ r) n_resamples periods_per_year seed)
          (bootstrap_sharpe_ci-IsSome x r n_resamples periods_per_year seed) in
      let (root, e3) = roots.int_root periods_per_year in rw e1 (rw e2 (rw e3 tt))

  -- The test of a series with statistics, of one trial, never raises.
  pub sharpe_significance-IsSome_of_stats :
      (stats : quant_pilot.Analysis.Numpy F) (r : List F) (rf : F) (periods_per_year : ℕ)
      (perf : PerformanceStats F) (n_resamples : ℕ) (seed : Option ℕ)
      → performance_stats stats r rf periods_per_year ≡ some perf
      → IsSome (sharpe_significance np rng r 1 periods_per_year n_resamples seed)
  unfolding performance_stats
  sharpe_significance-IsSome_of_stats stats [] rf periods_per_year perf n_resamples seed found =
      absurd (ground (arith, found))
  sharpe_significance-IsSome_of_stats stats (x ∷ r) rf periods_per_year perf n_resamples seed
        found =
      sharpe_significance-IsSome x r periods_per_year n_resamples seed
