-- ===== src/MarketData.antt =====
-- src/quant_pilot/adapters/data: `OHLCVCache` (parquet_cache.py) and `YFinanceMarketDataProvider`
-- (yfinance_provider.py). A frame is the list of its rows, each with its date as a day number and its
-- cells by column; a missing cell is `none`. The parquet files, the download and the median are
-- parameters, and so is `sort_index`: pandas promises no order of rows of one date.
pub mod Sorting
pub mod Merging
pub mod Serving
pub mod Samples
mod Tests
use Prim.Native.String.{◌++◌ as text_append}
use quant_pilot.Base.{
  ℕ, suc, ◌-◌, ◌≤◌, String, ◌≡◌, Bool, true, false, not, ◌&&◌, Option, none, some, List, [], ◌∷◌,
  ◌++◌, All, leb, ◌==◌, any, keep, map, length, drop, is_empty, maybe, str_eq, if◌then◌else◌,
}
use quant_pilot.Base.Dict.{Dict, lookup}
use quant_pilot.Float.{Float, ◌*◌, nought, of_int}
use quant_pilot.Base.Int.{pos}

-- The rows of a frame, by date.
abbrev pub Frame : Type 0 → Type 0
Frame R = List (ℕ × R)

-- The parquet files, `path.exists()` with `pd.read_parquet(path)` and `to_parquet(path)`, and
-- `sort_index()` of a frame.
pub record Files (R S : Type 0) : Type 0 where
  pub read_parquet : S → String → Option (Frame R)
  pub to_parquet : String → Frame R → S → S
  pub sort_index : Frame R → Frame R

module _ {R : Type 0} where
  abbrev pub IsFrom : ℕ → Frame R → Type 0
  IsFrom day f = All (λ (r : ℕ × R). day ≤ r.0) f

  -- In order of date.
  abbrev pub IsSorted : Frame R → Type 0
  IsSorted [] = Unit
  IsSorted (r ∷ rs) = IsFrom r.0 rs × IsSorted rs

  -- The rows of a date.
  unfoldable pub rows_of : ℕ → Frame R → List R
  rows_of day [] = []
  rows_of day (r ∷ rs) = let rest = rows_of day rs in if r.0 == day then r.1 ∷ rest else rest

  -- The row of a list that has one row.
  abbrev pub only_row : List R → Option R
  only_row (row ∷ []) = some row
  only_row _ = none

-- A frame that is written to a path is read from it, and other paths are untouched. A sorted frame is
-- in order of date and has of every date as many rows as before, and the same row where there is one;
-- a frame that is in order is left as it is.
pub record IsFiles {R S : Type 0} (files : Files R S) : Type 0 where
  pub read-write :
      (s : S) (p q : String) (f : Frame R)
      → files.read_parquet (files.to_parquet p f s) q
        ≡ (if str_eq p q then some f else files.read_parquet s q)
  pub sort_index-IsSorted : (f : Frame R) → IsSorted (files.sort_index f)
  pub length-sort_index :
      (day : ℕ) (f : Frame R) → length (rows_of day (files.sort_index f)) ≡ length (rows_of day f)
  pub only_row-sort_index :
      (day : ℕ) (f : Frame R)
      → only_row (rows_of day (files.sort_index f)) ≡ only_row (rows_of day f)
  pub sort_index_sorted : (f : Frame R) → IsSorted f → files.sort_index f ≡ f

-- `_path`, below the base directory
unfoldable pub path_of : String → String
path_of symbol = text_append symbol ".parquet"

module _ {R : Type 0} where
  -- `day in df.index`
  abbrev pub has_date : ℕ → Frame R → Bool
  has_date day f = any (λ r. r.0 == day) f

  -- `combined[~combined.index.duplicated(keep="last")]`
  unfoldable pub keep_last : Frame R → Frame R
  keep_last [] = []
  keep_last (r ∷ rs) = let rest = keep_last rs in if has_date r.0 rs then rest else r ∷ rest

  -- `df.index.min()` and `df.index.max()` of a first row and the others
  unfoldable pub min_date : ℕ → Frame R → ℕ
  min_date day [] = day
  min_date day (r ∷ rs) = min_date (if leb day r.0 then day else r.0) rs

  unfoldable pub max_date : ℕ → Frame R → ℕ
  max_date day [] = day
  max_date day (r ∷ rs) = max_date (if leb r.0 day then day else r.0) rs

  -- `_covers`; an empty frame covers nothing.
  unfoldable pub covers_range : Frame R → ℕ → ℕ → Bool
  covers_range [] from to = false
  covers_range (r ∷ rs) from to = leb (min_date r.0 rs) from && leb to (max_date r.0 rs)

  -- `_slice`
  unfoldable pub slice : Frame R → ℕ → ℕ → Frame R
  slice f from to = keep (λ r. leb from r.0 && leb r.0 to) f

module _ {R S : Type 0} (files : Files R S) where
  unfoldable pub read : String → S → Option (Frame R)
  read symbol s = files.read_parquet s (path_of symbol)

  unfoldable pub write : String → Frame R → S → S
  write symbol df s = files.to_parquet (path_of symbol) (files.sort_index df) s

  -- The frame that `merge_write` keeps, of what is there and what is new.
  unfoldable pub combine : Option (Frame R) → Frame R → Frame R
  combine none df = files.sort_index df
  combine (some existing) df =
      if is_empty existing
      then files.sort_index df
      else files.sort_index (keep_last (existing ++ df))

  unfoldable pub merge_write : String → Frame R → S → S × Frame R
  merge_write symbol df s =
      let combined = combine (read symbol s) df in (write symbol combined s, combined)

abbrev pub Cells : Type 0 → Type 0
Cells F = Dict (Option F)

-- `_COLUMN_MAP`, in the order of `_COLUMNS`.
abbrev pub column_map : List (String × String)
column_map =
    ("Open", "open")
    ∷ ("High", "high")
    ∷ ("Low", "low")
    ∷ ("Close", "close")
    ∷ ("Adj Close", "adj_close")
    ∷ ("Volume", "volume")
    ∷ []

module _ {F : Type 0} where
  -- `df.rename(columns=_COLUMN_MAP)` and `df[keep]` on one row: the columns that are there, under
  -- either name, in the order of `_COLUMNS`. A frame has no column under both names.
  unfoldable pub pick_columns : List (String × String) → Cells F → Cells F
  pick_columns [] cells = []
  pick_columns ((old, new) ∷ names) cells =
      let rest = pick_columns names cells in
      maybe (lookup old cells) (maybe (lookup new cells) rest λ c. (new, c) ∷ rest)
        λ c. (new, c) ∷ rest

  abbrev pub is_missing : Cells F → Bool
  is_missing cells = not (any (λ c. maybe c.1 false (λ _. true)) cells)

  -- `_normalize`, of a frame whose columns have one level and whose index is of dates
  unfoldable pub normalize : Frame (Cells F) → Frame (Cells F)
  normalize raw =
      keep (λ r. not (is_missing r.1)) (map (λ r. (r.0, pick_columns column_map r.1)) raw)

module _ {F S : Type 0} (files : Files (Cells F) S)
    (download : String → ℕ → ℕ → String → Option (Frame (Cells F))) where
  -- `none` is what the download raises.
  unfoldable pub fetch : String → ℕ → ℕ → String → S → Option (S × Frame (Cells F))
  fetch symbol from to frequency s = maybe (download symbol from to frequency) none λ raw.
      let (s', merged) = merge_write files symbol (normalize raw) s in
      some (s', slice merged from to)

  unfoldable pub get_ohlcv : String → ℕ → ℕ → String → S → Option (S × Frame (Cells F))
  get_ohlcv symbol from to frequency s =
      maybe (read files symbol s) (fetch symbol from to frequency s) λ cached.
        if not (is_empty cached) && covers_range cached from to
        then some (s, slice cached from to)
        else fetch symbol from to frequency s

pub record Liquidity (F : Type 0) : Type 0 where
  pub adv_value : F
  pub adv_shares : F
  pub sessions : ℕ

module _ {F S : Type 0} ⦃d : Float F⦄ (files : Files (Cells F) S) (median : List F → F) where
  -- `recent[column].astype(float)`, a missing cell as NaN; `none` is a missing column.
  unfoldable pub column : F → String → Frame (Cells F) → Option (List F)
  column nan name [] = some []
  column nan name (r ∷ rs) =
      maybe (lookup name r.1) none
        λ cell. maybe (column nan name rs) none λ rest. some (maybe cell nan (λ x. x) ∷ rest)

  unfoldable pub products : List F → List F → List F
  products (x ∷ xs) (y ∷ ys) = (x * y) ∷ products xs ys
  products _ _ = []

  -- `.tail(window)`
  abbrev pub tail_of {ℓ} : {A : Type ℓ} → ℕ → List A → List A
  tail_of window xs = drop (length xs - window) xs

  -- `none` is an exception: no cached prices, or a missing column.
  unfoldable pub get_liquidity : F → String → ℕ → ℕ → S → Option (Liquidity F)
  get_liquidity nan symbol as_of window s = maybe (read files symbol s) none λ df.
      if is_empty df
      then none
      else (let recent = tail_of window (keep (λ r. leb r.0 as_of) df) in
          if is_empty recent
          then some (record { adv_value = nought; adv_shares = nought; sessions = 0 })
          else maybe (column nan "close" recent) none λ closes.
            maybe (column nan "volume" recent) none λ volumes. some (record {
              adv_value = median (products closes volumes);
              adv_shares = median volumes;
              sessions = length recent;
            }))
