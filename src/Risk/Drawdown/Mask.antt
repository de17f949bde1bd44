-- ===== src/Risk/Drawdown/Mask.antt =====
-- The live monitor and the backtest mask agree.
use quant_pilot.Base.{◌≡◌, refl, Bool, true, not, some, List, [], ◌∷◌, All, arith, map}
use quant_pilot.Float.{Float, IsOrdered, IsNumber, nought, lt, max}
use quant_pilot.Risk.Drawdown.{
  DrawdownMonitor, DrawdownState, init, update, feed, minus_infinity, mask_from,
  drawdown_breaker_mask,
}

module _ {F : Type 0} ⦃d : Float F⦄ (order : IsOrdered F) (maximum : F → F → F)
    (maximum-eq-max : (x y : F) → IsNumber x → IsNumber y → maximum x y ≡ max x y) where
  abbrev pub is_allowed : DrawdownState F → Bool
  is_allowed s = not s.halted

  -- An equity value that is positive and above minus infinity.
  abbrev pub IsPositive : F → Type 0
  IsPositive e = (lt nought e ≡ true) × (lt minus_infinity e ≡ true)

  IsNumber-of_pos : (e : F) → lt nought e ≡ true → IsNumber e
  IsNumber-of_pos e h = (order.numbers_of_le nought e (order.le_of_lt nought e h)).1

  feed-mask_from :
      (m : DrawdownMonitor F) (es : List F)
      → lt nought m.peak ≡ true
      → All IsPositive es
      → map is_allowed (feed m es) ≡ mask_from maximum m.max_drawdown (some m.peak) m.halted es
  unfolding feed update mask_from
  feed-mask_from m [] pos h = refl
  feed-mask_from m (e ∷ es) pos h = ground (
    arith,
    feed-mask_from (update m e).0 es,
    maximum-eq-max m.peak e,
    IsNumber-of_pos m.peak pos,
    IsNumber-of_pos e h.0.0,
  )

  -- Over a curve of positive equity values a new monitor allows trading at just the points at which
  -- the mask does, where `cummax` takes the maximum of two numbers.
  pub monitor-eq-mask :
      (max_drawdown : F) (es : List F)
      → All IsPositive es
      → map is_allowed (feed (init max_drawdown) es) ≡ drawdown_breaker_mask maximum es max_drawdown
  unfolding feed update init drawdown_breaker_mask mask_from
  monitor-eq-mask max_drawdown [] h = refl
  monitor-eq-mask max_drawdown (e ∷ es) h =
      ground (arith, feed-mask_from (update (init max_drawdown) e).0 es)
