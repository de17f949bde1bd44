-- ===== src/Api/Backtests.antt =====
-- src/quant_pilot/api/routers/backtests.py over the repository, the artifact store and the worker of
-- src/quant_pilot/workers/tasks.py. New ids and the clock are arguments. The queue itself is not
-- part of this: what matters is when the worker takes the job. Before the session of the request is
-- committed, the worker reads the tables as they were.
use quant_pilot.Base.{
  ℕ, String, ◌≡◌, ◌⊎◌, inl, inr, refl, Option, none, some, List, [], maybe, if◌then◌else◌,
}
use Prim.Native.String.{◌++◌}
use quant_pilot.Domain.{
  BacktestRun, StrategyConfig, StrategyType, RunStatus, queued, strategy_type_value,
}
use quant_pilot.Repository.{Table, IsTable}
use quant_pilot.Repository.Runs.{
  BacktestRunOrm, create_backtest_run, get_backtest_run, get-create_backtest_run,
}
use quant_pilot.Repository.Configs.{StrategyConfigOrm, save_strategy_config}
use quant_pilot.Worker.Backtest.{
  reported, run_not_found, run_backtest, attempt, verdict_status, verdict_metrics, verdict_error,
  run_backtest_lem,
}
use quant_pilot.Stores.Artifacts.{FileSystem, Location, exists, load_json}

pub record BacktestCreate : Type 0 where
  pub strategy : StrategyType
  pub params : String

-- The config and the run that a submission makes.
unfoldable pub new_config : String → ℕ → BacktestCreate → StrategyConfig
new_config id now body = record {
  id = id;
  name = strategy_type_value body.strategy ++ "-run";
  strategy_type = body.strategy;
  params = body.params;
  created_at = now;
}

unfoldable pub new_run : String → String → ℕ → BacktestCreate → BacktestRun
new_run id config_id now body = record {
  id = id;
  strategy_config_id = some config_id;
  status = queued;
  params = body.params;
  metrics = none;
  artifacts = [];
  error = none;
  requested_at = now;
  started_at = none;
  finished_at = none;
}

-- The response, with the arguments of the job that is put on the queue.
pub record BacktestSubmitOut : Type 0 where
  pub run_id : String
  pub job : String × String
  pub status : RunStatus

module _ {C S : Type 0} (configs : Table StrategyConfigOrm C) (runs : Table BacktestRunOrm S) where
  unfoldable pub submit_backtest :
      String → String → ℕ → BacktestCreate → C × S → (C × S) × BacktestSubmitOut
  submit_backtest config_id run_id now body (c, s) =
      let cfg = new_config config_id now body in
      let c' = save_strategy_config configs cfg c in
      let run = new_run run_id cfg.id now body in
      let s' = create_backtest_run runs run s in
      (
        (c', s'),
        record {
          run_id = run.id;
          job = ("quant_pilot.workers.tasks.run_backtest", run.id);
          status = run.status;
        },
      )

module _ {S : Type 0} (runs : Table BacktestRunOrm S) where
  -- `inr` is the 404; `none` inside is a row that is refused.
  unfoldable pub get_backtest : String → S → Option BacktestRun ⊎ String
  get_backtest run_id s = maybe (get_backtest_run runs run_id s) (inr "backtest run not found") inl

module _ {B S J : Type 0} (fs : FileSystem B S) (place : Location B) (dumps : J → B)
    (loads : B → J) where
  -- `inr` is the 404, `none` a file that is gone.
  unfoldable pub get_equity_curve : String → S → Option J ⊎ String
  get_equity_curve run_id s =
      let key = "runs/" ++ run_id ++ "/equity.json" in
      if exists fs place key s
      then inl (load_json fs place dumps loads key s)
      else inr "equity curve not available"

module _ {C A K S : Type 0} (configs : Table StrategyConfigOrm K) (runs : Table BacktestRunOrm S)
    (laws : IsTable runs) (compute : String → (String × List C) ⊎ String)
    (save_json : String → List C → A → A × Option String) where
  -- A submission under a new run id answers that the run is queued. If the worker takes the job
  -- after the request is committed and no one else touches the run, the run ends: it is then fetched
  -- with the submitted parameters and the config of the submission, as succeeded with metrics and no
  -- error or as failed with an error and no metrics. If the worker takes the job before the commit,
  -- it reports a missing run and changes nothing; once committed, the run is fetched as queued.
  pub submit_backtest-Ends :
      (config_id run_id : String) (now started finished : ℕ) (body : BacktestCreate) (c : K) (s : S)
      (store : A) (meanwhile : S → S)
      → runs.find s run_id ≡ none
      → ((t : S) → get_backtest_run runs run_id (meanwhile t) ≡ get_backtest_run runs run_id t)
      → let ((c', s'), out) = submit_backtest configs runs config_id run_id now body (c, s) in
        let verdict = (attempt runs compute save_json run_id body.params store).1 in
        let ((after, _), report) =
          run_backtest runs compute save_json meanwhile started finished out.run_id (s', store) in
        let (early, early_report) =
          run_backtest runs compute save_json meanwhile started finished out.run_id (s, store) in
        (out.status ≡ queued)
        × (report ≡ reported (verdict_status verdict))
        × (get_backtest runs out.run_id after
            ≡ inl (
                some (record {
                  id = run_id;
                  strategy_config_id = some config_id;
                  status = verdict_status verdict;
                  params = body.params;
                  metrics = verdict_metrics verdict;
                  artifacts = [];
                  error = verdict_error verdict;
                  requested_at = now;
                  started_at = some started;
                  finished_at = some finished;
                })))
        × (early_report ≡ run_not_found)
        × (early ≡ (s, store))
        × (get_backtest runs out.run_id s' ≡ inl (some (new_run run_id config_id now body)))
  unfolding submit_backtest get_backtest new_run new_config
  submit_backtest-Ends config_id run_id now started finished body c s store meanwhile new alone =
      let run = new_run run_id config_id now body in
      let s' = create_backtest_run runs run s in
      let stored = get-create_backtest_run runs laws run s new in
      let missing : get_backtest_run runs run_id s ≡ none =
        unfold get_backtest_run in rw new refl in
      let (told, ended) =
        run_backtest_lem runs laws compute save_json meanwhile started finished run s' store stored
          alone in
      (
        refl,
        told,
        rw ended refl,
        unfold run_backtest in rw missing refl,
        unfold run_backtest in rw missing refl,
        rw stored refl,
      )
