-- ===== src/Risk/Drawdown/Latch.antt =====
-- The breaker latches.
use quant_pilot.Base.{◌≡◌, refl, true, false, List, [], ◌∷◌, All, arith}
use quant_pilot.Float.{Float, negate, le}
use quant_pilot.Risk.Drawdown.{DrawdownMonitor, DrawdownState, update, feed, reset, minus_infinity}

module _ {F : Type 0} ⦃d : Float F⦄ where
  abbrev pub IsHalted : DrawdownState F → Type 0
  IsHalted s = s.halted ≡ true

  latched : (m : DrawdownMonitor F) (es : List F) → m.halted ≡ true → All IsHalted (feed m es)
  unfolding feed update
  latched m [] h = tt
  latched m (e ∷ es) h = ground (arith, latched (update m e).0 es)

  -- Once a value breaches the limit, that report and every later one say halted, whatever values
  -- follow; only `reset` clears the breaker, and it forgets the peak as well.
  pub breach_latches :
      (m : DrawdownMonitor F) (e : F) (es : List F)
      → le (update m e).1.drawdown (negate m.max_drawdown) ≡ true
      → All IsHalted (feed m (e ∷ es))
        × ((reset (update m e).0).halted ≡ false)
        × ((reset (update m e).0).peak ≡ minus_infinity)
  unfolding feed update reset
  breach_latches m e es h = (ground (arith, latched (update m e).0 es), refl, refl)
