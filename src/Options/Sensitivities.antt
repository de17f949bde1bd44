-- ===== src/Options/Sensitivities.antt =====
-- The vega of the Greeks and the one of its own function.
use quant_pilot.Base.{◌≡◌, false, some, arith}
use quant_pilot.Float.{Float, nought, le}
use quant_pilot.Options.{OptionType, Greeks, Math, bs_greeks, bs_vega}

module _ {F : Type 0} ⦃d : Float F⦄ (math : Math F) (S K T r sigma : F) (option_type : OptionType)
    (q : F) where
  -- Where the Greeks of an option can be computed, at a positive time and a positive volatility, their
  -- vega, whatever the type of the option, is what the function for vega gives.
  pub bs_vega-bs_greeks :
      (g : Greeks F)
      → le T nought ≡ false
      → le sigma nought ≡ false
      → bs_greeks math S K T r sigma option_type q ≡ some g
      → bs_vega math S K T r sigma q ≡ some g.vega
  unfolding bs_greeks bs_vega
  bs_vega-bs_greeks g later positive made = ground (arith, made, later, positive)
