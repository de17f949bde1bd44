-- ===== src/Worker/Tests.antt =====
-- The stream of a job, and a run without prices.
use quant_pilot.Base.{
  ℕ, String, ◌≡◌, refl, true, Option, none, some, List, [], ◌∷◌, map, ltb, if◌then◌else◌,
}
use quant_pilot.Base.Int.{ℤ, pos}
use quant_pilot.Base.Dict.{Dict, lookup}
use quant_pilot.Float.Fixed.{fixed}
use quant_pilot.Domain.{BacktestRun, queued, failed}
use quant_pilot.MarketData.{Files, Cells, read}
use quant_pilot.Momentum.{Row}
use quant_pilot.Repository.InMemory.{in_memory, in_memory-IsTable}
use quant_pilot.Repository.Runs.{
  BacktestRunOrm, run_row, get_backtest_run, run_to_domain, parse_run_status, dump_artifacts,
}
use quant_pilot.Worker.Jobs.{
  InMemoryJobQueue, JobStatus, stream_job, events, job_status, is_terminal, max_events,
  IsTranscript, stream_job-IsTranscript,
}
use quant_pilot.Worker.Backtest.{reported, run_backtest}
use quant_pilot.Worker.Compute.{CurvePoint}
use quant_pilot.Worker.Compute.Samples.{lib}
use quant_pilot.Worker.Prices.{Series}
use quant_pilot.Worker.Unpriced.{compute_from, run_backtest-uncached}

-- The job is over when it is asked for the third time.
abbrev queue_at : ℕ → InMemoryJobQueue
queue_at i = record {
  jobs =
      (
        "j1",
        record {
          id = "j1";
          status = if ltb i 2 then "queued" else "finished";
          result = none;
          error = none;
        },
      )
      ∷ [];
  eager = true;
}

stream_job-IsTranscript_example :
    IsTranscript (λ i. job_status (queue_at i) "j1") max_events 0 (stream_job queue_at "j1")
stream_job-IsTranscript_example = stream_job-IsTranscript queue_at "j1"

three_events :
    map (λ (e : JobStatus). e.status) (stream_job queue_at "j1")
    ≡ "queued" ∷ "queued" ∷ "finished" ∷ []
unfolding stream_job events job_status is_terminal lookup
three_events = refl

abbrev run : BacktestRun
run = record {
  id = "r1";
  strategy_config_id = none;
  status = queued;
  params = "INFY";
  metrics = none;
  artifacts = [];
  error = none;
  requested_at = 1;
  started_at = none;
  finished_at = none;
}

abbrev rows : Dict BacktestRunOrm
rows = ("r1", run_row run) ∷ []

stored : get_backtest_run in_memory "r1" rows ≡ some (some run)
unfolding get_backtest_run run_row run_to_domain parse_run_status dump_artifacts lookup
stored = refl

-- A cache without files.
abbrev no_files : Files (Cells ℤ) ℕ
no_files = record { read_parquet = λ s p. none; to_parquet = λ p f s. s; sort_index = λ f. f }

abbrev no_frame : Dict (Series ℤ) → List (ℕ × Row ℤ)
no_frame columns = []

abbrev parse : String → Dict ℤ
parse params = ("symbols", pos 1) ∷ []

abbrev save_json : String → List (CurvePoint ℤ) → ℕ → ℕ × Option String
save_json key curve saved = (1, none)

run_backtest-uncached_example :
    let ((s', _), report) =
      run_backtest in_memory
        (compute_from lib no_files
          (λ t. some 1)
          no_frame
          (λ v. "momentum")
          (λ v. "INFY" ∷ "TCS" ∷ [])
          parse
          (λ m. "{}")
          (λ params cache. "no price data")
          0)
        save_json
        (λ t. t)
        2
        3
        "r1"
        (rows, 0) in
    (report ≡ reported failed)
    × (get_backtest_run in_memory "r1" s'
        ≡ some (
            some (record run {
              status = failed;
              error = some "no price data";
              started_at = some 2;
              finished_at = some 3;
            })))
unfolding lookup read
run_backtest-uncached_example =
    run_backtest-uncached lib no_files (λ t. some 1) no_frame (λ v. "momentum")
      (λ v. "INFY" ∷ "TCS" ∷ []) parse (λ m. "{}") (λ params cache. "no price data") in_memory
      in_memory-IsTable save_json 0 (λ t. t) 2 3 run rows 0 stored (λ t. refl) (refl, (refl, tt))
