-- ===== src/Risk/Drawdown/Tests.antt =====
-- An equity curve that falls by a quarter, at a limit of a fifth, and recovers.
use quant_pilot.Base.{◌≡◌, refl, true, false, not, List, [], ◌∷◌, map}
use quant_pilot.Base.Int.{ℤ, pos, ◌-ℤ◌}
use quant_pilot.Float.{max}
use quant_pilot.Float.Fixed.{fixed, fixed-IsOrdered}
use quant_pilot.Float.Scaled.{fixed_literal, fixed_div}
use quant_pilot.Risk.Drawdown.{init, feed, mask_from, drawdown_breaker_mask}
use quant_pilot.Risk.Drawdown.Mask.{monitor-eq-mask}

abbrev fifth : ℤ
fifth = pos 200_000

abbrev curve : List ℤ
curve = pos 90_000_000 ∷ pos 100_000_000 ∷ pos 75_000_000 ∷ pos 120_000_000 ∷ []

mask_of_curve : drawdown_breaker_mask max curve fifth ≡ true ∷ true ∷ false ∷ false ∷ []
unfolding drawdown_breaker_mask mask_from fixed_literal fixed_div ◌-ℤ◌
mask_of_curve = refl

monitor-eq-mask_example :
    map (λ s. not s.halted) (feed (init fifth) curve) ≡ drawdown_breaker_mask max curve fifth
unfolding fixed_literal
monitor-eq-mask_example =
    monitor-eq-mask fixed-IsOrdered max (λ x y p q. refl) fifth curve
      ((refl, refl), ((refl, refl), ((refl, refl), ((refl, refl), tt))))
