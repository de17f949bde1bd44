-- ===== src/MarketData/Serving.antt =====
-- What `get_ohlcv` answers, from the cache or after a download.
use quant_pilot.Base.{
  ℕ, ◌≤◌, String, ◌≡◌, refl, not, ◌&&◌, Option, some, [], ◌∷◌, arith, leb, is_empty, if-cases,
  maybe-cases, All,
}
use quant_pilot.MarketData.{
  Frame, Files, IsFiles, Cells, read, merge_write, normalize, slice, covers_range, fetch, get_ohlcv,
}
use quant_pilot.MarketData.Merging.{read-merge_write}

slice-InRange :
    {R : Type 0} (f : Frame R) (from to : ℕ)
    → All (λ (r : ℕ × R). (from ≤ r.0) × (r.0 ≤ to)) (slice f from to)
unfolding slice
slice-InRange [] from to = tt
slice-InRange {R} (r ∷ rs) from to =
    if-cases (All (λ (r : ℕ × R). (from ≤ r.0) × (r.0 ≤ to))) (leb from r.0 && leb r.0 to)
      (λ h. (ground arith, slice-InRange rs from to)) (λ _. slice-InRange rs from to)

module _ {F S : Type 0} (files : Files (Cells F) S) (laws : IsFiles files)
    (download : String → ℕ → ℕ → String → Option (Frame (Cells F))) where
  -- The rows of the range, of a frame that the cache holds afterwards.
  abbrev pub Serves : String → ℕ → ℕ → Option (S × Frame (Cells F)) → Type 0
  Serves symbol from to answer =
      (s' : S) × (f : Frame (Cells F)) × (answer ≡ some (s', slice f from to))
      × (read files symbol s' ≡ some f)
      × All (λ (r : ℕ × Cells F). (from ≤ r.0) × (r.0 ≤ to)) (slice f from to)

  fetch-Serves :
      (symbol : String) (from to : ℕ) (frequency : String) (s : S) (raw : Frame (Cells F))
      → download symbol from to frequency ≡ some raw
      → Serves symbol from to (fetch files download symbol from to frequency s)
  unfolding fetch
  fetch-Serves symbol from to frequency s raw e =
      let (s', merged) = merge_write files symbol (normalize raw) s in
      (
        s',
        merged,
        rw e refl,
        read-merge_write files laws symbol (normalize raw) s,
        slice-InRange merged from to,
      )

  -- Where the download succeeds, prices are always answered: they are the rows of the range, each
  -- between the two dates, of the very frame that the cache holds for the symbol afterwards,
  -- whether they came from the cache or were downloaded.
  pub get_ohlcv-Serves :
      (symbol : String) (from to : ℕ) (frequency : String) (s : S) (raw : Frame (Cells F))
      → download symbol from to frequency ≡ some raw
      → Serves symbol from to (get_ohlcv files download symbol from to frequency s)
  unfolding get_ohlcv
  get_ohlcv-Serves symbol from to frequency s raw e =
      maybe-cases (Serves symbol from to) (read files symbol s)
        (λ _. fetch-Serves symbol from to frequency s raw e)
        (λ cached found.
          if-cases (Serves symbol from to) (not (is_empty cached) && covers_range cached from to)
            (λ _. (s, cached, refl, found, slice-InRange cached from to))
            (λ _. fetch-Serves symbol from to frequency s raw e))
