-- ===== src/Repository/Runs.antt =====
-- The backtest runs of `SqlAlchemyRepository`, and `class BacktestRunORM` of
-- src/quant_pilot/adapters/persistence/models.py. A JSON column holds its value unprinted.
use quant_pilot.Base.{
  ℕ, String, ◌≡◌, refl, Option, none, some, List, [], ◌∷◌, str_eq, maybe, if◌then◌else◌, arith,
  eq_iff,
}
use quant_pilot.Domain.{BacktestRun, ArtifactRef, RunStatus, run_status_value}
use quant_pilot.Repository.{Table, IsTable}

pub record BacktestRunOrm : Type 0 where
  pub id : String
  pub strategy_config_id : Option String
  pub status : String
  pub params : String
  pub metrics : Option String
  pub artifacts : Option (List ArtifactRef)
  pub error : Option String
  pub requested_at : ℕ
  pub started_at : Option ℕ
  pub finished_at : Option ℕ

-- `RunStatus(text)`; `none` is the exception.
unfoldable pub parse_run_status : String → Option RunStatus
parse_run_status s =
    if str_eq s "queued"
    then some RunStatus.queued
    else if str_eq s "running"
    then some RunStatus.running
    else if str_eq s "succeeded"
    then some RunStatus.succeeded
    else if str_eq s "failed"
    then some RunStatus.failed
    else if str_eq s "cancelled"
    then some RunStatus.cancelled
    else none

-- `_dump_artifacts`: no artifacts are stored as `None`.
unfoldable pub dump_artifacts : List ArtifactRef → Option (List ArtifactRef)
dump_artifacts [] = none
dump_artifacts (r ∷ refs) = some (r ∷ refs)

-- The row that `create_backtest_run` adds.
unfoldable pub run_row : BacktestRun → BacktestRunOrm
run_row run = record {
  id = run.id;
  strategy_config_id = run.strategy_config_id;
  status = run_status_value run.status;
  params = run.params;
  metrics = run.metrics;
  artifacts = dump_artifacts run.artifacts;
  error = run.error;
  requested_at = run.requested_at;
  started_at = run.started_at;
  finished_at = run.finished_at;
}

-- The loaded row with what `update_backtest_run` writes to it.
unfoldable pub updated_row : BacktestRun → BacktestRunOrm → BacktestRunOrm
updated_row run orm = record orm {
  status = run_status_value run.status;
  params = run.params;
  metrics = run.metrics;
  artifacts = dump_artifacts run.artifacts;
  error = run.error;
  started_at = run.started_at;
  finished_at = run.finished_at;
}

-- `_run_to_domain`
unfoldable pub run_to_domain : BacktestRunOrm → Option BacktestRun
run_to_domain orm = maybe (parse_run_status orm.status) none λ status. some (record {
  id = orm.id;
  strategy_config_id = orm.strategy_config_id;
  status = status;
  params = orm.params;
  metrics = orm.metrics;
  artifacts = maybe orm.artifacts [] λ refs. refs;
  error = orm.error;
  requested_at = orm.requested_at;
  started_at = orm.started_at;
  finished_at = orm.finished_at;
})

module _ {S : Type 0} (runs : Table BacktestRunOrm S) where
  -- The state after `create_backtest_run`, for an id that is new.
  unfoldable pub create_backtest_run : BacktestRun → S → S
  create_backtest_run run s = runs.add run.id (run_row run) s

  -- `none` is the `KeyError`.
  unfoldable pub update_backtest_run : BacktestRun → S → Option S
  update_backtest_run run s =
      maybe (runs.find s run.id) none λ orm. some (runs.write run.id (updated_row run orm) s)

  -- `none` inside is a row that is refused, `none` outside a missing row.
  unfoldable pub get_backtest_run : String → S → Option (Option BacktestRun)
  get_backtest_run run_id s = maybe (runs.find s run_id) none λ orm. some (run_to_domain orm)

parse-run_status_value : (s : RunStatus) → parse_run_status (run_status_value s) ≡ some s
unfolding parse_run_status
parse-run_status_value RunStatus.queued = refl
parse-run_status_value RunStatus.running = refl
parse-run_status_value RunStatus.succeeded = refl
parse-run_status_value RunStatus.failed = refl
parse-run_status_value RunStatus.cancelled = refl

load-dump_artifacts : (refs : List ArtifactRef) → maybe (dump_artifacts refs) [] (λ rs. rs) ≡ refs
unfolding dump_artifacts
load-dump_artifacts [] = refl
load-dump_artifacts (r ∷ refs) = refl

-- An update of a stored row is read back, with the identity and the request of the row.
pub run_to_domain-updated_row :
    (run : BacktestRun) (orm : BacktestRunOrm)
    → run_to_domain (updated_row run orm)
      ≡ some (record run {
        id = orm.id;
        strategy_config_id = orm.strategy_config_id;
        requested_at = orm.requested_at;
      })
unfolding run_to_domain updated_row
run_to_domain-updated_row run orm = simp (parse-run_status_value, load-dump_artifacts)

pub run_to_domain-run_row : (run : BacktestRun) → run_to_domain (run_row run) ≡ some run
unfolding run_to_domain run_row
run_to_domain-run_row run = simp (parse-run_status_value, load-dump_artifacts)

module _ {S : Type 0} (runs : Table BacktestRunOrm S) (laws : IsTable runs) where
  -- A run that is created under a new id is read back as it is.
  pub get-create_backtest_run :
      (run : BacktestRun) (s : S)
      → runs.find s run.id ≡ none
      → get_backtest_run runs run.id (create_backtest_run runs run s) ≡ some (some run)
  unfolding get_backtest_run create_backtest_run
  get-create_backtest_run run s new = ground (
    arith,
    laws.find-add s run.id run.id (run_row run) new,
    eq_iff run.id run.id,
    run_to_domain-run_row run,
  )
