-- ===== src/Api/Sweep.antt =====
-- src/quant_pilot/api/routers/sweep.py, with the request of src/quant_pilot/api/schemas/sweep.py, over
-- the price cache and the sweep of the worker.
use quant_pilot.Base.{
  ℕ, String, not, Option, List, [], ◌∷◌, any, is_empty, maybe, str_eq, if◌then◌else◌,
}
use quant_pilot.Base.Dict.{Dict}
use quant_pilot.Float.{Float, literal}
use quant_pilot.MarketData.{Files, Cells}
use quant_pilot.Momentum.{Row}
use quant_pilot.Worker.Compute.{PriceData, Libraries, SweepPoint, lacks_prices, sweep_parameter}
use quant_pilot.Worker.Prices.{Series, prices_from_cache, close_from_cache}

pub record SweepRequest (F V : Type 0) : Type 0 where
  pub symbols : List String
  pub start : String
  pub end : String
  pub param : String
  pub values : List F
  pub base : Dict V
  pub benchmark : String

-- `SWEEPABLE`
abbrev pub sweepable : List String
sweepable = "long_pct" ∷ "vol_window" ∷ "skip_months" ∷ "turnover_band" ∷ []

-- The points, a refusal with code 422, or an exception that is not handled.
pub data SweepAnswer (F : Type 0) : Type 0 where
  answered : List (SweepPoint F) → SweepAnswer F
  unprocessable raised : SweepAnswer F

module _ {F M G V S : Type 0} ⦃d : Float F⦄ (lib : Libraries F M G V) (files : Files (Cells F) S)
    (timestamp : String → Option ℕ) (data_frame : Dict (Series F) → List (ℕ × Row F)) where
  -- After the guards on the prices.
  unfoldable pub sweep_over : SweepRequest F V → PriceData F → S → SweepAnswer F
  sweep_over body prices s =
      maybe (close_from_cache files lib.nan timestamp body.benchmark body.start body.end s) raised
        λ bench.
          maybe
            (sweep_parameter lib prices body.param body.values body.base "momentum" (literal 65 3)
              bench)
            raised answered

  unfoldable pub run_sweep : SweepRequest F V → S → SweepAnswer F
  run_sweep body s =
      if not (any (λ p. str_eq p body.param) sweepable)
      then unprocessable
      else if is_empty body.values
      then unprocessable
      else maybe
          (prices_from_cache files lib.nan timestamp data_frame body.symbols body.start body.end s)
          raised λ prices. if lacks_prices prices then unprocessable else sweep_over body prices s
