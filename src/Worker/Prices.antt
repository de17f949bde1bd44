-- ===== src/Worker/Prices.antt =====
-- `_prices_from_cache`, `_close_from_cache` and the computation of a run, of
-- src/quant_pilot/workers/tasks.py, over the price cache of MarketData. A series is its values by date.
-- Parsing a date, and pandas' frame of a dictionary of series, are parameters; `none` is an exception.
mod Tests
use quant_pilot.Base.{
  ℕ, String, ◌≡◌, refl, ◌≤◌, Bool, true, false, Option, none, some, List, [], ◌∷◌, map, is_empty,
  maybe, if◌then◌else◌, ◌>>=◌, Bool-cases, inl, inr, arith,
}
use quant_pilot.Base.Dict.{Dict, lookup, insert}
use quant_pilot.Float.{Float, literal}
use quant_pilot.MarketData.{Frame, Files, IsFiles, Cells, read, slice, get_ohlcv}
use quant_pilot.MarketData.Serving.{get_ohlcv-Serves}
use quant_pilot.Momentum.{Row}
use quant_pilot.Worker.Compute.{PriceData, Libraries, Metrics, execute_backtest}

abbrev pub Series : Type 0 → Type 0
Series F = List (ℕ × F)

module _ {F : Type 0} (nan : F) where
  -- `window[name]`; `none` is the `KeyError`.
  unfoldable pub series_of : String → Frame (Cells F) → Option (Series F)
  series_of name [] = some []
  series_of name (r ∷ rows) = do
    cell ← lookup name r.1
    rest ← series_of name rows
    some ((r.0, maybe cell nan λ x. x) ∷ rest)

module _ {F S : Type 0} (files : Files (Cells F) S) (nan : F) (timestamp : String → Option ℕ) where
  -- One round of the loop over the symbols, with `closes` and `opens`.
  unfoldable pub add_symbol :
      String
      → ℕ
      → ℕ
      → S
      → Dict (Series F) × Dict (Series F)
      → Option (Dict (Series F) × Dict (Series F))
  add_symbol sym from to s (closes, opens) = maybe (read files sym s) (some (closes, opens)) λ df.
      if is_empty df then some (closes, opens) else (do
        close ← series_of nan "close" (slice df from to)
        opening ← series_of nan "open" (slice df from to)
        some (insert sym close closes, insert sym opening opens))

  unfoldable pub add_symbols :
      List String
      → ℕ
      → ℕ
      → S
      → Dict (Series F) × Dict (Series F)
      → Option (Dict (Series F) × Dict (Series F))
  add_symbols [] from to s columns = some columns
  add_symbols (sym ∷ symbols) from to s columns = do
    columns' ← add_symbol sym from to s columns
    add_symbols symbols from to s columns'

  -- `pd.DataFrame`: the rows of the dates of all series, with NaN where a series has no value.
  unfoldable pub prices_from_cache :
      (Dict (Series F) → List (ℕ × Row F))
      → List String
      → String
      → String
      → S
      → Option (PriceData F)
  prices_from_cache data_frame symbols start end s = do
    from ← timestamp start
    to ← timestamp end
    columns ← add_symbols symbols from to s ([], [])
    some (record {
      symbols = map (λ c. c.0) columns.0;
      open_rows = data_frame columns.1;
      close_rows = data_frame columns.0;
    })

  -- The window of a cached frame; `some none` is `None`.
  abbrev pub close_of_window : Frame (Cells F) → Option (Option (Series F))
  close_of_window window =
      if is_empty window
      then some none
      else maybe (series_of nan "close" window) none λ close. some (some close)

  -- The dates are parsed only where the symbol is cached.
  unfoldable pub close_from_cache : String → String → String → S → Option (Option (Series F))
  close_from_cache symbol start end s = maybe (read files symbol s) (some none) λ df.
      if is_empty df
      then some none
      else (do from ← timestamp start; to ← timestamp end; close_of_window (slice df from to))

  slice-is_empty :
      (df : Frame (Cells F)) (from to : ℕ) → is_empty df ≡ true → is_empty (slice df from to) ≡ true
  unfolding slice
  slice-is_empty [] from to none_left = refl
  slice-is_empty (r ∷ rows) from to none_left = absurd (ground (arith, none_left))

  module _ (laws : IsFiles files)
      (download : String → ℕ → ℕ → String → Option (Frame (Cells F))) where
    -- What the provider serves is what a run reads afterwards: where the download succeeds, the closes
    -- of a symbol from the cache, over the same dates, are those of the rows that were served, and
    -- there are none exactly if no row was served.
    pub close_from_cache-get_ohlcv :
        (symbol start end frequency : String) (from to : ℕ) (s : S) (raw : Frame (Cells F))
        → timestamp start ≡ some from
        → timestamp end ≡ some to
        → download symbol from to frequency ≡ some raw
        → (s' : S) × (rows : Frame (Cells F)) × (get_ohlcv files download symbol from to frequency s
            ≡ some (s', rows))
          × (close_from_cache symbol start end s' ≡ close_of_window rows)
    unfolding close_from_cache
    close_from_cache-get_ohlcv symbol start end frequency from to s raw starts ends loads =
        let (s', df, served, held, _) =
          get_ohlcv-Serves files laws download symbol from to frequency s raw loads in
        (
          s',
          slice df from to,
          served,
          elim (Bool-cases (is_empty df)) [
            | inl nothing ↦ rw held (rw nothing (rw (slice-is_empty df from to nothing) refl))
            | inr something ↦ rw held (rw something (rw starts (rw ends refl)))
          ],
        )

module _ {F M G V S : Type 0} ⦃d : Float F⦄ (lib : Libraries F M G V) (files : Files (Cells F) S)
    (timestamp : String → Option ℕ) (data_frame : Dict (Series F) → List (ℕ × Row F))
    (text : V → String) (texts : V → List String) where
  -- `params.get(key, default)` of a text
  abbrev pub text_or : String → String → Dict V → String
  text_or key default params = maybe (lookup key params) default text

  -- The `try` of `run_backtest`, up to the metrics.
  unfoldable pub compute_run : Dict V → S → Option (Metrics F)
  compute_run params s = do
    let start = text_or "start" "2015-01-01" params
    let end = text_or "end" "2025-12-31" params
    prices ←
        prices_from_cache files lib.nan timestamp data_frame
          (maybe (lookup "symbols" params) [] texts) start end s
    bench ←
        close_from_cache files lib.nan timestamp (text_or "benchmark" "^NSEI" params) start end s
    execute_backtest lib prices (text_or "strategy" "momentum" params) (literal 65 3) bench params
