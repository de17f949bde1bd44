-- ===== src/Worker/Prices/Tests.antt =====
-- Closes that are read after a download.
use quant_pilot.Base.{ℕ, String, ◌≡◌, refl, Option, some, [], ◌∷◌, str_eq, if◌then◌else◌}
use quant_pilot.Base.Dict.{Dict, lookup}
use quant_pilot.MarketData.{Frame, Cells, get_ohlcv, path_of, read, slice}
use quant_pilot.MarketData.Samples.{files, files-IsFiles, cached, raw, download}
use quant_pilot.Worker.Prices.{
  series_of, close_of_window, close_from_cache, close_from_cache-get_ohlcv,
}

abbrev timestamp : String → Option ℕ
timestamp text = some (if str_eq text "2024-01-02" then 2 else 5)

close_from_cache-get_ohlcv_example :
    (s' : Dict (Frame (Cells ℕ))) × (rows : Frame (Cells ℕ)) × (get_ohlcv files download "INFY" 2 5
        "1d" cached
      ≡ some (s', rows))
    × (close_from_cache files 0 timestamp "INFY" "2024-01-02" "2024-01-05" s'
        ≡ close_of_window files 0 timestamp rows)
close_from_cache-get_ohlcv_example =
    close_from_cache-get_ohlcv files 0 timestamp files-IsFiles download "INFY" "2024-01-02"
      "2024-01-05" "1d" 2 5 cached raw refl refl refl

-- What is cached before is read as it is.
cached_closes :
    close_from_cache files 0 timestamp "INFY" "2024-01-02" "2024-01-05" cached
    ≡ some (some ((2, 11) ∷ []))
unfolding close_from_cache read path_of slice series_of lookup
cached_closes = refl
