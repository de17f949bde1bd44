-- ===== src/Api/Tests.antt =====
-- A backtest that is submitted, and its curve, with tables and files in memory.
use quant_pilot.Base.{ℕ, String, ◌≡◌, ◌⊎◌, inl, refl, Option, none, some, List, [], ◌∷◌}
use quant_pilot.Base.Dict.{Dict, lookup}
use quant_pilot.Domain.{StrategyType, queued, succeeded}
use quant_pilot.Repository.InMemory.{in_memory, in_memory-IsTable}
use quant_pilot.Repository.Runs.{BacktestRunOrm}
use quant_pilot.Repository.Configs.{StrategyConfigOrm}
use quant_pilot.Worker.Backtest.{
  success, failure, reported, run_not_found, run_backtest, attempt, ending, equity_key,
}
use quant_pilot.Stores.Artifacts.{KeepsOthers}
use quant_pilot.Stores.Tests.{files, files-IsFileSystem, place}
use quant_pilot.Api.Backtests.{
  BacktestCreate, submit_backtest, get_backtest, get_equity_curve, new_run, submit_backtest-Ends,
}
use quant_pilot.Api.Curves.{save_artifact, get_equity_curve-attempt}

abbrev body : BacktestCreate
body = record { strategy = StrategyType.momentum; params = "{}" }

abbrev configs : Dict StrategyConfigOrm
configs = []

abbrev rows : Dict BacktestRunOrm
rows = []

abbrev compute : String → (String × List ℕ) ⊎ String
compute params = inl ("sharpe 1", 5 ∷ [])

abbrev save_json : String → List ℕ → ℕ → ℕ × Option String
save_json key curve saved = (1, none)

abbrev submitted : Dict BacktestRunOrm
submitted = (submit_backtest in_memory in_memory "c1" "r1" 1 body (configs, rows)).0.1

submit_backtest-Ends_example :
    let ((after, _), report) =
      run_backtest in_memory compute save_json (λ t. t) 2 3 "r1" (submitted, 0) in
    let (early, early_report) =
      run_backtest in_memory compute save_json (λ t. t) 2 3 "r1" (rows, 0) in
    ((submit_backtest in_memory in_memory "c1" "r1" 1 body (configs, rows)).1.status ≡ queued)
    × (report ≡ reported succeeded)
    × (get_backtest in_memory "r1" after
        ≡ inl (
            some (record {
              id = "r1";
              strategy_config_id = some "c1";
              status = succeeded;
              params = "{}";
              metrics = some "sharpe 1";
              artifacts = [];
              error = none;
              requested_at = 1;
              started_at = some 2;
              finished_at = some 3;
            })))
    × (early_report ≡ run_not_found)
    × (early ≡ (rows, 0))
    × (get_backtest in_memory "r1" submitted ≡ inl (some (new_run "r1" "c1" 1 body)))
unfolding attempt ending submit_backtest new_run lookup
submit_backtest-Ends_example =
    submit_backtest-Ends in_memory in_memory in_memory-IsTable compute save_json "c1" "r1" 1 2 3
      body configs rows 0 (λ t. t) refl (λ t. refl)

abbrev save_curve : String → List ℕ → Dict (List ℕ) → Dict (List ℕ) × Option String
save_curve = save_artifact files place (λ curve. curve) (λ bytes. bytes) "no space"

get_equity_curve-attempt_example :
    let (s', verdict) = attempt in_memory compute save_curve "r1" "{}" [] in
    ((verdict ≡ success "sharpe 1")
      × (get_equity_curve files place (λ curve. curve) (λ bytes. bytes) "r1" s'
          ≡ inl (some (5 ∷ []))))
    ⊎ ((verdict ≡ failure "no space") × KeepsOthers files place (equity_key "r1") [] s')
get_equity_curve-attempt_example =
    get_equity_curve-attempt files place (λ curve. curve) (λ bytes. bytes) "no space"
      {S = Dict BacktestRunOrm} in_memory compute files-IsFileSystem (λ curve. refl) "r1" "{}"
      "sharpe 1" 5 [] [] refl
