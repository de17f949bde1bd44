-- ===== src/Worker/Unpriced.antt =====
-- A run of src/quant_pilot/workers/tasks.py with its own computation: `run_backtest` over the price
-- cache. Parsing the parameters of a run, rendering its metrics and the texts of exceptions are
-- parameters.
use quant_pilot.Base.{
  ℕ, String, ◌≡◌, ◌⊎◌, inl, inr, refl, Option, none, some, List, [], ◌∷◌, maybe, All, Option-cases,
}
use quant_pilot.Base.Dict.{Dict, lookup}
use quant_pilot.Float.{Float}
use quant_pilot.Domain.{BacktestRun, failed}
use quant_pilot.Repository.{Table, IsTable}
use quant_pilot.Repository.Runs.{BacktestRunOrm, get_backtest_run}
use quant_pilot.MarketData.{Files, Cells, read}
use quant_pilot.Momentum.{Row}
use mathlib.Core.Path.{subst}
use quant_pilot.Worker.Backtest.{
  reported, failure, verdict_status, verdict_metrics, verdict_error, run_backtest, attempt, ending,
  run_backtest_lem,
}
use quant_pilot.Worker.Compute.{Libraries, Metrics, CurvePoint, execute_backtest}
use quant_pilot.Worker.Prices.{
  Series, text_or, add_symbol, add_symbols, prices_from_cache, close_from_cache, compute_run,
}

module _ {F M G V S : Type 0} ⦃d : Float F⦄ (lib : Libraries F M G V) (files : Files (Cells F) S)
    (timestamp : String → Option ℕ) (data_frame : Dict (Series F) → List (ℕ × Row F))
    (text : V → String) (texts : V → List String) (parse : String → Dict V)
    (render : Metrics F → String) (error : String → S → String) where
  -- The computation of a run from the cache.
  unfoldable pub compute_from : S → String → (String × List (CurvePoint F)) ⊎ String
  compute_from cache params =
      maybe (compute_run lib files timestamp data_frame text texts (parse params) cache)
        (inr (error params cache)) (λ (m : Metrics F). inl (render m, m.equity_curve))

  -- `params.get("symbols", [])`
  abbrev pub symbols_of : String → List String
  symbols_of params = maybe (lookup "symbols" (parse params)) [] texts

  -- Nothing is cached for a symbol.
  abbrev pub IsUncached : S → String → Type 0
  IsUncached cache symbol = read files symbol cache ≡ none

  add_symbols-uncached :
      (symbols : List String) (from to : ℕ) (cache : S)
      (columns : Dict (Series F) × Dict (Series F))
      → All (IsUncached cache) symbols
      → add_symbols files lib.nan timestamp symbols from to cache columns ≡ some columns
  unfolding add_symbols add_symbol
  add_symbols-uncached [] from to cache columns missing = refl
  add_symbols-uncached (symbol ∷ symbols) from to cache columns (absent, missing) =
      rw absent (add_symbols-uncached symbols from to cache columns missing)

  compute_run-uncached :
      (cache : S) (params : String)
      → All (IsUncached cache) (symbols_of params)
      → compute_run lib files timestamp data_frame text texts (parse params) cache ≡ none
  unfolding compute_run prices_from_cache execute_backtest
  compute_run-uncached cache params missing =
      let start =
        text_or lib files timestamp data_frame text texts "start" "2015-01-01" (parse params) in
      let end =
        text_or lib files timestamp data_frame text texts "end" "2025-12-31" (parse params) in
      let benchmark =
        text_or lib files timestamp data_frame text texts "benchmark" "^NSEI" (parse params) in
      elim (Option-cases (timestamp start)) [
        | inl unread ↦ rw unread refl
        | inr (from, starts) ↦ elim (Option-cases (timestamp end)) [
          | inl unread ↦ rw starts (rw (unread, maybe) refl)
          | inr (to, ends) ↦
              let none_added =
                add_symbols-uncached (symbols_of params) from to cache ([], []) missing in
              elim (Option-cases
                (close_from_cache files lib.nan timestamp benchmark start end cache)) [
                  | inl raised ↦
                      rw starts
                        (rw (ends, maybe) (rw (none_added, maybe) (rw (raised, maybe) refl)))
                  | inr (bench, found) ↦
                      rw starts (rw (ends, maybe) (rw (none_added, maybe) (rw (found, maybe) refl)))
                ]
        ]
      ]

  module _ {T A : Type 0} (runs : Table BacktestRunOrm T) (laws : IsTable runs)
      (save_json : String → List (CurvePoint F) → A → A × Option String) where
    attempt-uncached :
        (cache : S) (run_id params : String) (store : A)
        → All (IsUncached cache) (symbols_of params)
        → (attempt runs (compute_from cache) save_json run_id params store).1
          ≡ failure (error params cache)
    unfolding attempt ending compute_from
    attempt-uncached cache run_id params store missing =
        rw (compute_run-uncached cache params missing) refl

    -- A stored run for whose symbols nothing is cached does not stay running: it ends as failed, which
    -- is what is reported and read back, with the text of the exception, both times and no metrics.
    -- Others leave this run alone while it is computed.
    pub run_backtest-uncached :
        (cache : S) (meanwhile : T → T) (started finished : ℕ) (run : BacktestRun) (s : T)
        (store : A)
        → get_backtest_run runs run.id s ≡ some (some run)
        → ((t : T) → get_backtest_run runs run.id (meanwhile t) ≡ get_backtest_run runs run.id t)
        → All (IsUncached cache) (symbols_of run.params)
        → let ((s', _), report) =
            run_backtest runs
              (compute_from cache)
              save_json
              meanwhile
              started
              finished
              run.id
              (s, store) in
          (report ≡ reported failed)
          × (get_backtest_run runs run.id s'
              ≡ some (
                  some (record run {
                    status = failed;
                    metrics = none;
                    error = some (error run.params cache);
                    started_at = some started;
                    finished_at = some finished;
                  })))
    run_backtest-uncached cache meanwhile started finished run s store found alone missing =
        subst
          (λ verdict.
            let ((s', _), report) =
              run_backtest runs (compute_from cache) save_json meanwhile started finished run.id
                (s, store) in
            (report ≡ reported (verdict_status verdict))
            × (get_backtest_run runs run.id s'
                ≡ some (
                    some (record run {
                      status = verdict_status verdict;
                      metrics = verdict_metrics verdict;
                      error = verdict_error verdict;
                      started_at = some started;
                      finished_at = some finished;
                    }))))
          (attempt-uncached cache run.id run.params store missing)
          (run_backtest_lem runs laws (compute_from cache) save_json meanwhile started finished run
            s store found alone)
