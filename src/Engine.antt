-- ===== src/Engine.antt =====
-- src/quant_pilot/engine/backtest/engine.py: `BacktestEngine`. A row of a frame is a function of the
-- symbol, and the symbols are the columns. The frames are given on the dates of `prices.open`, as
-- `reindex` gives them: a missing target is `none`, a missing price, or a missing volume frame, is
-- NaN, and a missing halt is false. numpy's operations are parameters, and so are pandas' trailing
-- statistics: the value of the rolling statistic at the last of the days that it is given.
pub mod Causal
pub mod Idle
pub mod Samples
mod Tests
use quant_pilot.Base.{
  ℕ, suc, String, Bool, true, false, not, ◌&&◌, ◌||◌, Option, none, some, List, [], ◌∷◌, ◌++◌, map,
  keep, length, is_empty, maybe, if◌then◌else◌,
}
use quant_pilot.Base.Int.{pos}
use quant_pilot.Float.{Float, ◌+◌, ◌-◌, ◌*◌, ◌/◌, abs, nought, one, lt, eq, of_int}
use quant_pilot.Costs.{CostConfig, Segment, total_cost}
use quant_pilot.Impact.{ImpactConfig, cap_element, impact_cost}

-- One date of `PriceData` and of the target weights.
pub record Day (F : Type 0) : Type 0 where
  pub open_price : String → F
  pub close_price : String → F
  pub volume : String → F
  pub halted : String → Bool
  pub target : String → Option F

-- What numpy and pandas provide.
pub record Numpy (F : Type 0) : Type 0 where
  pub minimum : F → F → F
  pub sign : F → F
  pub nan_to_num : F → F
  pub nansum : List F → F
  -- `rolling(window).median()` at the last value; NaN without values
  pub rolling_median : ℕ → List F → F
  -- `pct_change().rolling(window).std()` at the last close; NaN without closes
  pub rolling_deviation : ℕ → List F → F

pub record Engine (F : Type 0) : Type 0 where
  pub costs : CostConfig F
  pub impact : ImpactConfig F
  pub initial_capital : F
  pub segment : Segment
  pub vol_window : ℕ
  pub adv_window : ℕ

-- The variables of the loop; `past` are the days before, and `decided` their last target weights
-- (`ffill`).
pub record Book (F : Type 0) : Type 0 where
  pub past : List (Day F)
  pub decided : String → Option F
  pub shares : String → F
  pub cash : F
  pub prev_target : String → F

-- The entries of one date in the result's series.
pub record DayResult (F : Type 0) : Type 0 where
  pub equity : F
  pub positions : String → F
  pub cost : F
  pub turnover : F

-- What `_rebalance` returns, and the shares that it leaves.
pub record Rebalance (F : Type 0) : Type 0 where
  pub trade_cost : F
  pub traded : F
  pub cash_left : F
  pub new_shares : String → F

pub record Summary (F : Type 0) : Type 0 where
  pub initial : F
  pub final_equity : F
  pub total_return : F
  pub total_costs : F
  pub total_turnover : F
  pub n_rebalances : ℕ

module _ {F : Type 0} ⦃d : Float F⦄ where
  -- `np.array_equal(a, b)`
  unfoldable pub array_equal : List String → (String → F) → (String → F) → Bool
  array_equal [] a b = true
  array_equal (s ∷ ss) a b = eq (a s) (b s) && array_equal ss a b

module _ {F : Type 0} ⦃d : Float F⦄ (np : Numpy F) (engine : Engine F) (symbols : List String) where
  -- `np.nansum(np.nan_to_num(...))` over the symbols
  abbrev pub total_of : (String → F) → F
  total_of row = np.nansum (map (λ s. np.nan_to_num (row s)) symbols)

  unfoldable pub tradeable : F → Bool → Bool
  tradeable o halted = d.is_finite o && lt nought o && not halted

  -- The order for one symbol, before the cap.
  unfoldable pub desired : F → Bool → F → F → F → F
  desired o halted tw equity_open shares =
      let target_shares =
        if tradeable o halted && lt nought o
        then tw * equity_open / (if lt nought o then o else one)
        else shares in
      if tradeable o halted then target_shares - shares else nought

  -- `_rebalance`
  unfoldable pub rebalance :
      (String → F)
      → (String → F)
      → (String → F)
      → F
      → (String → F)
      → (String → F)
      → (String → Bool)
      → Rebalance F
  rebalance o tw shares cash adv_row vol_row halted_row =
      let equity_open = cash + total_of (λ s. shares s * o s) in
      let filled : String → F = λ s.
        cap_element np.minimum np.sign np.nan_to_num engine.impact.max_adv_participation
          (desired (o s) (halted_row s) (tw s) equity_open (shares s)) (adv_row s) in
      let explicit : String → F =
        λ s. total_cost np.minimum engine.costs engine.segment (o s) (filled s) in
      let impact : String → F = λ s.
        impact_cost np.nan_to_num engine.impact none (filled s) (o s) (adv_row s) (vol_row s) in
      let trade_cost = total_of (λ s. explicit s + impact s) in
      record {
        trade_cost = trade_cost;
        traded = total_of (λ s. abs (filled s) * o s);
        cash_left = cash - total_of (λ s. filled s * o s) - trade_cost;
        new_shares = λ s. shares s + np.nan_to_num (filled s);
      }

  -- A row of `et`: the targets decided on the days before, `fillna(0.0)`.
  abbrev pub exec_target : Book F → String → F
  exec_target b s = maybe (b.decided s) nought λ w. w

  -- A row of `_trailing` and of `_trailing_vol`, shifted by one day.
  abbrev pub adv_row : Book F → String → F
  adv_row b s = np.rolling_median engine.adv_window (map (λ (day : Day F). day.volume s) b.past)

  abbrev pub vol_row : Book F → String → F
  vol_row b s =
      np.rolling_deviation engine.vol_window (map (λ (day : Day F). day.close_price s) b.past)

  -- The trades of one date, from its open prices and halts.
  unfoldable pub trade_day : Book F → (String → F) → (String → Bool) → Book F × (F × F)
  trade_day b opens halted =
      let tw = exec_target b in
      if is_empty b.past || not (array_equal symbols tw b.prev_target)
      then (let r = rebalance opens tw b.shares b.cash (adv_row b) (vol_row b) halted in
          (
            record b { shares = r.new_shares; cash = r.cash_left; prev_target = tw },
            (r.trade_cost, r.traded),
          ))
      else (b, (nought, nought))

  -- The book after a date: its targets fill those before, where they are given.
  unfoldable pub close_day : Book F → Day F → Book F
  close_day b day = record b {
    past = b.past ++ day ∷ [];
    decided = λ s. maybe (day.target s) (b.decided s) some;
  }

  -- One round of the loop.
  unfoldable pub run_day : Book F → Day F → Book F × DayResult F
  run_day b day =
      let (b', (cost, turnover)) = trade_day b day.open_price day.halted in
      (
        close_day b' day,
        record {
          equity = b'.cash + total_of (λ s. b'.shares s * day.close_price s);
          positions = b'.shares;
          cost = cost;
          turnover = turnover;
        },
      )

  unfoldable pub simulate : Book F → List (Day F) → List (DayResult F)
  simulate b [] = []
  simulate b (day ∷ days) = let (b', r) = run_day b day in r ∷ simulate b' days

  abbrev pub start_book : Book F
  start_book = record {
    past = [];
    decided = λ s. none;
    shares = λ s. nought;
    cash = engine.initial_capital;
    prev_target = λ s. nought;
  }

  -- The realized weights at a close; an equity of zero and NaN give zero.
  unfoldable pub realized_weight : Day F → DayResult F → String → F
  realized_weight day r s =
      if eq r.equity nought
      then nought
      else (let w = r.positions s * day.close_price s / r.equity in if eq w w then w else nought)

  unfoldable pub last_equity : F → List (DayResult F) → F
  last_equity e [] = e
  last_equity e (r ∷ rs) = last_equity r.equity rs

  -- `_summary`; `none` is the exception of a run without dates.
  unfoldable pub summary : List (DayResult F) → Option (Summary F)
  summary [] = none
  summary (r ∷ rs) =
      let final = last_equity r.equity rs in
      some (record {
        initial = engine.initial_capital;
        final_equity = final;
        total_return = final / engine.initial_capital - one;
        total_costs = np.nansum (map (λ (e : DayResult F). e.cost) (r ∷ rs));
        total_turnover = np.nansum (map (λ (e : DayResult F). e.turnover) (r ∷ rs));
        n_rebalances = length (keep (λ (e : DayResult F). lt nought e.turnover) (r ∷ rs));
      })

  -- `run`: the daily series with the summary
  unfoldable pub run : List (Day F) → Option (List (DayResult F) × Summary F)
  run days = let rs = simulate start_book days in maybe (summary rs) none λ s. some (rs, s)
