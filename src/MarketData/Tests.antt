-- ===== src/MarketData/Tests.antt =====
-- A cache that holds two days of a symbol, and a download of two more.
use quant_pilot.Base.{String, ◌≡◌, refl, some, [], ◌∷◌, str_eq, if◌then◌else◌}
use quant_pilot.Base.Dict.{lookup, insert}
use quant_pilot.MarketData.{
  path_of, read, merge_write, write, combine, IsSorted, keep_last, get_ohlcv, fetch, covers_range,
  slice, normalize, pick_columns, min_date, max_date,
}
use quant_pilot.MarketData.Samples.{
  insertion_sort, insert_row, files, files-IsFiles, cached, raw, download, bar,
}
use quant_pilot.MarketData.Merging.{KeepsWrites, merge_write_lem}

merged_bars :
    get_ohlcv files download "INFY" 2 5 "1d" cached
    ≡ some (
      ("INFY.parquet", bar "close" 1 10 ∷ bar "close" 2 12 ∷ bar "close" 3 13 ∷ []) ∷ [],
      bar "close" 2 12 ∷ bar "close" 3 13 ∷ [],
    )
unfolding get_ohlcv fetch covers_range slice normalize pick_columns min_date max_date read write
    path_of merge_write combine keep_last insertion_sort insert_row lookup insert
merged_bars = refl

merge_write_lem_example :
    let (s', merged) = merge_write files "INFY" raw cached in
    IsSorted merged
    × KeepsWrites files (read files "INFY" cached) raw merged
    × ((other : String)
        → read files other s' ≡ (
            if str_eq (path_of "INFY") (path_of other)
            then some merged
            else read files other cached))
merge_write_lem_example = merge_write_lem files files-IsFiles "INFY" raw cached
