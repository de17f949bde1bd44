-- ===== src/Worker/Backtest.antt =====
-- `run_backtest` of src/quant_pilot/workers/tasks.py, with its two units of work. The computation in
-- between (reading the price cache, `execute_backtest`) is a function of the parameters: `inl` gives
-- the metrics and the equity curve, `inr` the text of the exception. `save_json` of the artifact
-- store may raise too. `meanwhile` is what others do to the table between the two units of work. A
-- unit of work that raises is rolled back.
use quant_pilot.Base.{
  ℕ, String, ◌≡◌, ◌⊎◌, inl, inr, refl, ◌∙◌, Option, none, some, str_eq, maybe, if◌then◌else◌, List,
  is_empty, arith, eq_iff, Option-cases, maybe-cases,
}
use Prim.Native.String.{◌++◌}
use mathlib.Core.Path.{subst}
use quant_pilot.Domain.{BacktestRun, RunStatus, running, succeeded, failed}
use quant_pilot.Repository.{Table, IsTable}
use quant_pilot.Repository.Runs.{
  BacktestRunOrm, update_backtest_run, get_backtest_run, updated_row, parse_run_status,
  run_to_domain, run_to_domain-updated_row,
}

-- The response `{"run_id": …, "status": …}`, the one for a missing run, or an exception.
pub data Report : Type 0 where
  reported : RunStatus → Report
  run_not_found raised : Report

-- `metrics, status, error` after the `try`.
pub data Verdict : Type 0 where
  success : String → Verdict
  failure : String → Verdict

abbrev pub verdict_status : Verdict → RunStatus
verdict_status (success _) = succeeded
verdict_status (failure _) = failed

abbrev pub verdict_metrics : Verdict → Option String
verdict_metrics (success metrics) = some metrics
verdict_metrics (failure _) = none

abbrev pub verdict_error : Verdict → Option String
verdict_error (success _) = none
verdict_error (failure e) = some e

-- `f"runs/{run_id}/equity.json"`
unfoldable pub equity_key : String → String
equity_key run_id = "runs/" ++ run_id ++ "/equity.json"

module _ {C A S : Type 0} (runs : Table BacktestRunOrm S)
    (compute : String → (String × List C) ⊎ String)
    (save_json : String → List C → A → A × Option String) where
  -- The end of the `try` and its handler: the curve is saved where it is not empty.
  unfoldable pub ending : String → (String × List C) ⊎ String → A → A × Verdict
  ending run_id (inl (metrics, curve)) store =
      if is_empty curve
      then (store, success metrics)
      else (let (store', raised_error) = save_json (equity_key run_id) curve store in
          (store', maybe raised_error (success metrics) failure))
  ending run_id (inr e) store = (store, failure e)

  unfoldable pub attempt : String → String → A → A × Verdict
  attempt run_id params store = ending run_id (compute params) store

  abbrev pub as_running : ℕ → BacktestRun → BacktestRun
  as_running now run = record run { status = running; started_at = some now }

  abbrev pub as_finished : ℕ → Verdict → BacktestRun → BacktestRun
  as_finished now verdict run = record run {
    status = verdict_status verdict;
    metrics = verdict_metrics verdict;
    error = verdict_error verdict;
    finished_at = some now;
  }

  -- The second unit of work.
  unfoldable pub finish : ℕ → String → Verdict → S → S × Report
  finish now run_id verdict s =
      maybe (get_backtest_run runs run_id s) (s, reported (verdict_status verdict))
        λ row.
          maybe row (s, raised)
            λ run.
              maybe (update_backtest_run runs (as_finished now verdict run) s) (s, raised)
                λ s'. (s', reported (verdict_status verdict))

  unfoldable pub run_backtest : (S → S) → ℕ → ℕ → String → S × A → (S × A) × Report
  run_backtest meanwhile started finished run_id (s, store) =
      maybe (get_backtest_run runs run_id s) ((s, store), run_not_found)
        λ row.
          maybe row ((s, store), raised)
            λ run.
              maybe (update_backtest_run runs (as_running started run) s) ((s, store), raised)
                λ s1.
                  let (store', verdict) = attempt run_id run.params store in
                  let (s2, report) = finish finished run_id verdict (meanwhile s1) in
                  ((s2, store'), report)

module _ {S : Type 0} (runs : Table BacktestRunOrm S) (laws : IsTable runs) where
  -- The identity and the request of a run are those of its row.
  abbrev Reads : BacktestRunOrm → Option BacktestRun → Type 0
  Reads orm none = Unit
  Reads orm (some run) =
      (run.id ≡ orm.id)
      × (run.strategy_config_id ≡ orm.strategy_config_id)
      × (run.requested_at ≡ orm.requested_at)

  run_to_domain-Reads : (orm : BacktestRunOrm) → Reads orm (run_to_domain orm)
  unfolding run_to_domain
  run_to_domain-Reads orm =
      maybe-cases (Reads orm) (parse_run_status orm.status) (λ _. tt)
        (λ status _. (refl, refl, refl))

  -- A stored run is updated, and read back with its own request; other runs are as before.
  get-update_backtest_run :
      (run old : BacktestRun) (s : S)
      → get_backtest_run runs run.id s ≡ some (some old)
      → (s' : S) × (update_backtest_run runs run s ≡ some s')
        × ((k : String)
            → get_backtest_run runs k s' ≡ (
                if str_eq run.id k
                then some (
                    some (record run {
                      id = old.id;
                      strategy_config_id = old.strategy_config_id;
                      requested_at = old.requested_at;
                    }))
                else get_backtest_run runs k s))
  unfolding get_backtest_run update_backtest_run
  get-update_backtest_run run old s found = elim (Option-cases (runs.find s run.id)) [
    | inl missing ↦ absurd (ground (arith, missing))
    | inr (orm, stored) ↦
        let row : run_to_domain orm ≡ some old = ground (arith, stored) in
        let (i, c, r) = subst (Reads orm) row (run_to_domain-Reads orm) in
        (
          runs.write run.id (updated_row run orm) s,
          rw stored refl,
          λ k. ground (
            arith,
            laws.find-write s run.id k orm (updated_row run orm) stored,
            run_to_domain-updated_row run orm,
          ),
        )
  ]

module _ {C A S : Type 0} (runs : Table BacktestRunOrm S) (laws : IsTable runs)
    (compute : String → (String × List C) ⊎ String)
    (save_json : String → List C → A → A × Option String) where
  -- A stored run that the worker takes ends with a verdict: it is reported and read back with its
  -- own request and parameters, the two times, and either as succeeded with metrics and no error, or
  -- as failed with an error and no metrics. Others leave this run alone while it is computed.
  pub run_backtest_lem :
      (meanwhile : S → S) (started finished : ℕ) (run : BacktestRun) (s : S) (store : A)
      → get_backtest_run runs run.id s ≡ some (some run)
      → ((t : S) → get_backtest_run runs run.id (meanwhile t) ≡ get_backtest_run runs run.id t)
      → let ((s', _), report) =
          run_backtest runs compute save_json meanwhile started finished run.id (s, store) in
        let verdict = (attempt runs compute save_json run.id run.params store).1 in
        (report ≡ reported (verdict_status verdict))
        × (get_backtest_run runs run.id s'
            ≡ some (
                some (record run {
                  status = verdict_status verdict;
                  metrics = verdict_metrics verdict;
                  error = verdict_error verdict;
                  started_at = some started;
                  finished_at = some finished;
                })))
  unfolding run_backtest
  run_backtest_lem meanwhile started finished run s store found alone =
      let verdict = (attempt runs compute save_json run.id run.params store).1 in
      let taken = as_running runs compute save_json started run in
      let (s1, e1, g1) = get-update_backtest_run runs laws taken run s found in
      let again : get_backtest_run runs run.id (meanwhile s1) ≡ some (some taken) =
        alone s1 ∙ g1 run.id ∙ ground (arith, eq_iff run.id run.id) in
      let ended = as_finished runs compute save_json finished verdict taken in
      let (s2, e2, g2) = get-update_backtest_run runs laws ended taken (meanwhile s1) again in
      rw found (
        rw e1 (
          unfold finish in
          rw again (rw e2 (refl, g2 run.id ∙ ground (arith, eq_iff run.id run.id)))))
