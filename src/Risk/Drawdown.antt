-- ===== src/Risk/Drawdown.antt =====
-- src/quant_pilot/engine/risk/drawdown.py: `DrawdownMonitor`, which is fed one equity value at a
-- time, and `drawdown_breaker_mask`, which reads a whole equity curve. The running maximum of two
-- numbers by pandas' `cummax` is a parameter.
pub mod Latch
pub mod Mask
mod Tests
use quant_pilot.Base.{
  Bool, true, false, not, ◌||◌, Option, none, some, List, [], ◌∷◌, if◌then◌else◌, maybe,
}
use quant_pilot.Float.{Float, ◌-◌, ◌/◌, nought, one, negate, lt, le, max}

pub record DrawdownMonitor (F : Type 0) : Type 0 where
  pub max_drawdown : F
  pub peak : F
  pub halted : Bool

pub record DrawdownState (F : Type 0) : Type 0 where
  pub peak : F
  pub drawdown : F
  pub halted : Bool

module _ {F : Type 0} ⦃d : Float F⦄ where
  -- `float("-inf")`
  abbrev pub minus_infinity : F
  minus_infinity = negate d.infinity

  -- `DrawdownMonitor.__init__`
  unfoldable pub init : F → DrawdownMonitor F
  init max_drawdown = record { max_drawdown = max_drawdown; peak = minus_infinity; halted = false }

  unfoldable pub update : DrawdownMonitor F → F → DrawdownMonitor F × DrawdownState F
  update m equity =
      let peak = max m.peak equity in
      let dd = if lt nought peak then equity / peak - one else nought in
      let halted = if le dd (negate m.max_drawdown) then true else m.halted in
      (
        record m { peak = peak; halted = halted },
        record { peak = peak; drawdown = dd; halted = halted },
      )

  unfoldable pub reset : DrawdownMonitor F → DrawdownMonitor F
  reset m = record m { peak = minus_infinity; halted = false }

  -- The states that the monitor reports for a list of equity values.
  unfoldable pub feed : DrawdownMonitor F → List F → List (DrawdownState F)
  feed m [] = []
  feed m (e ∷ es) = let (m', s) = update m e in s ∷ feed m' es

  -- `drawdown_breaker_mask` from the running maximum and the breach so far, `none` at the start.
  unfoldable pub mask_from : (F → F → F) → F → Option F → Bool → List F → List Bool
  mask_from maximum max_drawdown top breached [] = []
  mask_from maximum max_drawdown top breached (e ∷ es) =
      let peak = maybe top e (λ t. maximum t e) in
      let dd = e / peak - one in
      let breached' = breached || le dd (negate max_drawdown) in
      not breached' ∷ mask_from maximum max_drawdown (some peak) breached' es

  unfoldable pub drawdown_breaker_mask : (F → F → F) → List F → F → List Bool
  drawdown_breaker_mask maximum equity max_drawdown =
      mask_from maximum max_drawdown none false equity
