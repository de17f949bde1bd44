-- ===== src/Api/Data.antt =====
-- src/quant_pilot/api/routers/data.py: the bars of a symbol. The price cache and the download are those
-- of MarketData. The ingestion routes are in Api/Portfolio.
use quant_pilot.Base.{ℕ, String, Option, none, some, List, [], ◌∷◌, maybe}
use quant_pilot.Base.Dict.{lookup}
use quant_pilot.MarketData.{Frame, Files, Cells, get_ohlcv}

pub record Bar (F : Type 0) : Type 0 where
  pub date : ℕ
  pub open_price : F
  pub high : Option F
  pub low : Option F
  pub close : F
  pub adj_close : Option F
  pub volume : Option F

module _ {F : Type 0} (nan : F) where
  -- `_opt`: a missing column and NaN are `None`.
  unfoldable pub optional_cell : Cells F → String → Option F
  optional_cell row key = maybe (lookup key row) none λ cell. cell

  -- `float(row[key])`; `none` is the `KeyError`.
  unfoldable pub float_cell : Cells F → String → Option F
  float_cell row key = maybe (lookup key row) none λ cell. some (maybe cell nan λ x. x)

  unfoldable pub bar_of : ℕ × Cells F → Option (Bar F)
  bar_of (ts, row) = maybe (float_cell row "open") none λ open_price.
      maybe (float_cell row "close") none λ close. some (record {
        date = ts;
        open_price = open_price;
        high = optional_cell row "high";
        low = optional_cell row "low";
        close = close;
        adj_close = optional_cell row "adj_close";
        volume = optional_cell row "volume";
      })

  unfoldable pub bars_of : Frame (Cells F) → Option (List (Bar F))
  bars_of [] = some []
  bars_of (r ∷ rows) =
      maybe (bar_of r) none λ bar. maybe (bars_of rows) none λ bars. some (bar ∷ bars)

  module _ {S : Type 0} (files : Files (Cells F) S)
      (download : String → ℕ → ℕ → String → Option (Frame (Cells F))) where
    -- The state and the bars; `none` is an exception of the provider.
    unfoldable pub get_bars : String → ℕ → ℕ → S → Option (S × Option (List (Bar F)))
    get_bars symbol from to s =
        maybe (get_ohlcv files download symbol from to "1d" s) none
          λ (s', df). some (s', bars_of df)
