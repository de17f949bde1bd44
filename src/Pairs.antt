-- ===== src/Pairs.antt =====
-- src/quant_pilot/engine/strategies/pairs_trading.py: the position machine of `pair_leg_weights`, bar
-- by bar, and `compute_spread` of cointegration.py. The rolling z-score (pandas' rolling mean and
-- deviation) is a parameter. A bar at which Python divides by a price of zero is `none`.
pub mod Pieces
pub mod OuProcess
pub mod StepUp
pub mod Selection
pub mod Validated
mod SelectionTests
pub mod Retired
pub mod Total
mod Tests
use quant_pilot.Base.{
  ℕ, suc, String, Bool, true, false, not, ◌&&◌, ◌||◌, Option, none, some, List, [], ◌∷◌, map,
  if◌then◌else◌, maybe,
}
use quant_pilot.Base.Int.{ℤ, pos, negsuc}
use quant_pilot.Float.{Float, ◌+◌, ◌-◌, ◌*◌, ◌/◌, negate, nought, of_int, literal, lt, le, eq, min}

pub record PairConfig (F : Type 0) : Type 0 where
  pub cointegration_pvalue : F
  pub half_life_min_days : F
  pub half_life_max_days : F
  pub entry_zscore : F
  pub exit_zscore : F
  pub stop_zscore : F
  pub zscore_window : ℕ
  pub train_frac : F
  pub gross_per_pair : F
  pub break_half_life_mult : F
  pub break_max_no_cross : ℕ

-- src/quant_pilot/engine/models/ou_process.py
pub record OuParams (F : Type 0) : Type 0 where
  pub theta : F
  pub mu : F
  pub sigma : F
  pub half_life : F
  pub is_mean_reverting : Bool

pub record ValidatedPair (F : Type 0) : Type 0 where
  pub y : String
  pub x : String
  pub hedge_ratio : F
  pub intercept : F
  pub pvalue : F
  pub ou : OuParams F

-- `pos`: 0, 1 and -1
pub data Stance : Type 0 where
  flat long short : Stance

-- `sign` and `prev_sign`: 0, 1 and -1
pub data Sign : Type 0 where
  null above below : Sign

-- The variables of the loop.
pub record Walk (F : Type 0) : Type 0 where
  pub stance : Stance
  pub entry_ratio : F
  pub broken : Bool
  pub prev_sign : Sign
  pub bars_no_cross : ℕ

-- The z-score and the closes of a bar.
pub record PairBar (F : Type 0) : Type 0 where
  pub z : F
  pub cy : F
  pub cx : F

abbrev pub stance_value : Stance → ℤ
stance_value Stance.flat = pos 0
stance_value Stance.long = pos 1
stance_value Stance.short = negsuc 0

-- `-pos`
abbrev pub opposite_value : Stance → ℤ
opposite_value Stance.flat = pos 0
opposite_value Stance.long = negsuc 0
opposite_value Stance.short = pos 1

-- `prev_sign != 0 and sign != 0 and sign != prev_sign`
abbrev pub has_crossed : Sign → Sign → Bool
has_crossed Sign.above Sign.below = true
has_crossed Sign.below Sign.above = true
has_crossed _ _ = false

-- `if sign != 0: prev_sign = sign`
abbrev pub last_sign : Sign → Sign → Sign
last_sign prev Sign.null = prev
last_sign prev sign = sign

module _ {F : Type 0} ⦃d : Float F⦄ where
  -- The field defaults of `PairConfig`.
  abbrev pub default_pairs : PairConfig F
  default_pairs = record {
    cointegration_pvalue = literal 5 2;
    half_life_min_days = literal 5 0;
    half_life_max_days = literal 60 0;
    entry_zscore = literal 2 0;
    exit_zscore = nought;
    stop_zscore = literal 35 1;
    zscore_window = 60;
    train_frac = literal 7 1;
    gross_per_pair = literal 1 0;
    break_half_life_mult = literal 4 0;
    break_max_no_cross = 120;
  }

  -- `np.isnan(x)`: NaN is the one number that does not equal itself.
  abbrev pub is_nan : F → Bool
  is_nan x = not (eq x x)

  abbrev pub sign_of : F → Sign
  sign_of z = if lt nought z then Sign.above else if lt z nought then Sign.below else Sign.null

  -- `max_no_cross`
  unfoldable pub max_no_cross : PairConfig F → F → F
  max_no_cross config half_life =
      min
        (if d.is_finite half_life && lt nought half_life
          then config.break_half_life_mult * half_life
          else d.infinity)
        (of_int (pos config.break_max_no_cross))

  -- The walk after the count of bars without a crossing, and the break.
  unfoldable pub count_bar : F → Walk F → F → Walk F
  count_bar limit w z =
      let sign = sign_of z in
      let bars = if has_crossed w.prev_sign sign then 0 else suc w.bars_no_cross in
      let w' : Walk F = record w { prev_sign = last_sign w.prev_sign sign; bars_no_cross = bars } in
      if lt limit (of_int (pos bars)) then record w' { broken = true; stance = Stance.flat } else w'

  -- `pair.hedge_ratio * float(cx) / float(cy)`
  unfoldable pub enter : PairConfig F → F → PairBar F → Walk F → Stance → Option (Walk F)
  enter config hedge_ratio b w stance =
      if eq b.cy nought
      then none
      else some (record w { stance = stance; entry_ratio = hedge_ratio * b.cx / b.cy })

  -- The entry from a flat position, and the exit or stop of an open one.
  unfoldable pub trade : PairConfig F → F → PairBar F → Walk F → Option (Walk F)
  trade config hedge_ratio b w = elim w.stance [
    | Stance.flat ↦
        if le b.z (negate config.entry_zscore)
        then enter config hedge_ratio b w Stance.long
        else if le config.entry_zscore b.z
        then enter config hedge_ratio b w Stance.short
        else some w
    | Stance.long ↦
        if le config.exit_zscore b.z || le b.z (negate config.stop_zscore)
        then some (record w { stance = Stance.flat })
        else some w
    | Stance.short ↦
        if le b.z config.exit_zscore || le config.stop_zscore b.z
        then some (record w { stance = Stance.flat })
        else some w
  ]

  -- One round of the loop, before the weights are written.
  unfoldable pub next : PairConfig F → F → F → Walk F → PairBar F → Option (Walk F)
  next config hedge_ratio limit w b =
      if w.broken || is_nan b.z
      then some w
      else (let w' = count_bar limit w b.z in
          if w'.broken then some w' else trade config hedge_ratio b w')

  -- `-pos * gross * entry_ratio if pos != 0 else 0.0`
  unfoldable pub hedge_leg : F → Stance → F → F
  hedge_leg gross Stance.flat entry_ratio = nought
  hedge_leg gross stance entry_ratio = of_int (opposite_value stance) * gross * entry_ratio

  -- `wy.iloc[i]` and `wx.iloc[i]`
  unfoldable pub legs : F → Walk F → F × F
  legs gross w = (of_int (stance_value w.stance) * gross, hedge_leg gross w.stance w.entry_ratio)

  unfoldable pub walk_from :
      PairConfig F → F → F → Walk F → List (PairBar F) → Option (List (Walk F))
  walk_from config hedge_ratio limit w [] = some []
  walk_from config hedge_ratio limit w (b ∷ bs) =
      maybe (next config hedge_ratio limit w b) none
        λ w'. maybe (walk_from config hedge_ratio limit w' bs) none λ ws. some (w' ∷ ws)

  abbrev pub start : Walk F
  start = record {
    stance = Stance.flat;
    entry_ratio = nought;
    broken = false;
    prev_sign = Sign.null;
    bars_no_cross = 0;
  }

  -- `compute_spread`
  unfoldable pub compute_spread : F → F → List (F × F) → List F
  compute_spread hedge_ratio intercept [] = []
  compute_spread hedge_ratio intercept ((y, x) ∷ closes) =
      (y - (intercept + hedge_ratio * x)) ∷ compute_spread hedge_ratio intercept closes

  -- The z-scores beside the closes.
  unfoldable pub bars_of : List F → List (F × F) → List (PairBar F)
  bars_of (z ∷ zs) ((y, x) ∷ closes) = record { z = z; cy = y; cx = x } ∷ bars_of zs closes
  bars_of _ _ = []

  -- The loop's variables after each bar; `legs` reads the weights off them.
  unfoldable pub walk_pair :
      (ℕ → List F → List F) → List (F × F) → ValidatedPair F → PairConfig F → Option (List (Walk F))
  walk_pair zscore closes pair config =
      walk_from config pair.hedge_ratio (max_no_cross config pair.ou.half_life) start (
        bars_of
          (zscore config.zscore_window (compute_spread pair.hedge_ratio pair.intercept closes))
          closes)

  unfoldable pub pair_leg_weights :
      (ℕ → List F → List F) → List (F × F) → ValidatedPair F → PairConfig F → Option (List (F × F))
  pair_leg_weights zscore closes pair config =
      maybe (walk_pair zscore closes pair config) none
        λ ws. some (map (legs config.gross_per_pair) ws)
