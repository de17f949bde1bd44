-- ===== src/Options.antt =====
-- src/quant_pilot/engine/models/black_scholes.py. The functions of `math` are parameters; `none` is an
-- exception: a division by zero, a value outside a function's domain, or an overflow.
pub mod Implied
pub mod Sensitivities
mod Tests
use quant_pilot.Base.{
  ℕ, zero, suc, Bool, true, false, ◌&&◌, Option, none, some, if◌then◌else◌, maybe, ◌>>=◌,
}
use quant_pilot.Float.{
  Float, ◌+◌, ◌-◌, ◌*◌, ◌/◌, abs, negate, nought, one, literal, lt, le, max, min, quotient,
}

pub data OptionType : Type 0 where
  call put : OptionType

pub record Greeks (F : Type 0) : Type 0 where
  pub delta : F
  pub gamma : F
  pub theta : F
  pub vega : F
  pub rho : F

-- The module `math`; `none` is a `ValueError` or an `OverflowError`.
pub record Math (F : Type 0) : Type 0 where
  pub pi : F
  pub erf : F → F
  pub exp : F → Option F
  pub log : F → Option F
  pub sqrt : F → Option F

module _ {F : Type 0} ⦃d : Float F⦄ where
  -- `_intrinsic`
  unfoldable pub intrinsic : F → F → OptionType → F
  intrinsic S K OptionType.call = max (S - K) nought
  intrinsic S K OptionType.put = max (K - S) nought

module _ {F : Type 0} ⦃d : Float F⦄ (math : Math F) where
  -- `_norm_cdf`; the root of two is not zero.
  unfoldable pub norm_cdf : F → F
  norm_cdf x = literal 5 1 * (one + math.erf (x / d.sqrt (literal 2 0)))

  -- `_norm_pdf`; the root of two pi is not zero.
  unfoldable pub norm_pdf : F → Option F
  norm_pdf x = do
    e ← math.exp (negate (literal 5 1) * x * x)
    some (e / d.sqrt (literal 2 0 * math.pi))

  -- `_d1_d2`
  unfoldable pub d1_d2 : F → F → F → F → F → F → Option (F × F)
  d1_d2 S K T r sigma q = do
    root ← math.sqrt T
    let vol = sigma * root
    moneyness ← quotient S K
    l ← math.log moneyness
    d1 ← quotient (l + (r - q + literal 5 1 * sigma * sigma) * T) vol
    some (d1, d1 - vol)

  -- The price by the formula, from d1, d2 and the two discounts.
  abbrev pub formula_price : F → F → F × F → F → F → OptionType → F
  formula_price S K (d1, d2) disc_q disc_r OptionType.call =
      S * disc_q * norm_cdf d1 - K * disc_r * norm_cdf d2
  formula_price S K (d1, d2) disc_q disc_r OptionType.put =
      K * disc_r * norm_cdf (negate d2) - S * disc_q * norm_cdf (negate d1)

  unfoldable pub bs_price : F → F → F → F → F → OptionType → F → Option F
  bs_price S K T r sigma option_type q =
      if le T nought
      then some (intrinsic S K option_type)
      else if le sigma nought
      then some (intrinsic S K option_type)
      else (do
        ds ← d1_d2 S K T r sigma q
        disc_q ← math.exp (negate q * T)
        disc_r ← math.exp (negate r * T)
        some (formula_price S K ds disc_q disc_r option_type))

  unfoldable pub bs_call_price : F → F → F → F → F → F → Option F
  bs_call_price S K T r sigma q = bs_price S K T r sigma OptionType.call q

  unfoldable pub bs_put_price : F → F → F → F → F → F → Option F
  bs_put_price S K T r sigma q = bs_price S K T r sigma OptionType.put q

  unfoldable pub bs_vega : F → F → F → F → F → F → Option F
  bs_vega S K T r sigma q =
      if le T nought then some nought else if le sigma nought then some nought else (do
        (d1, _) ← d1_d2 S K T r sigma q
        disc_q ← math.exp (negate q * T)
        pdf ← norm_pdf d1
        root ← math.sqrt T
        some (S * disc_q * pdf * root))

  -- The delta, the theta and the rho of either type.
  abbrev pub typed_greeks : F → F → F → F → F → F × F → F → F → F → OptionType → F × (F × F)
  typed_greeks S K T r q (d1, d2) disc_q disc_r common_theta OptionType.call = (
    disc_q * norm_cdf d1,
    (
      common_theta - r * K * disc_r * norm_cdf d2 + q * S * disc_q * norm_cdf d1,
      K * T * disc_r * norm_cdf d2,
    ),
  )
  typed_greeks S K T r q (d1, d2) disc_q disc_r common_theta OptionType.put = (
    disc_q * (norm_cdf d1 - one),
    (
      common_theta + r * K * disc_r * norm_cdf (negate d2) - q * S * disc_q * norm_cdf (negate d1),
      negate K * T * disc_r * norm_cdf (negate d2),
    ),
  )

  unfoldable pub bs_greeks : F → F → F → F → F → OptionType → F → Option (Greeks F)
  bs_greeks S K T r sigma option_type q = do
    ds ← d1_d2 S K T r sigma q
    disc_q ← math.exp (negate q * T)
    disc_r ← math.exp (negate r * T)
    pdf ← norm_pdf ds.0
    root ← math.sqrt T
    gamma ← quotient (disc_q * pdf) (S * sigma * root)
    common_theta ← quotient (negate S * disc_q * pdf * sigma) (literal 2 0 * root)
    let typed = typed_greeks S K T r q ds disc_q disc_r common_theta option_type
    some (record {
      delta = typed.0;
      gamma = gamma;
      theta = typed.1.0;
      vega = S * disc_q * pdf * root;
      rho = typed.1.1;
    })

  -- `lower` and `upper`, the no-arbitrage bounds
  unfoldable pub price_bounds : F → F → F → F → OptionType → F × F
  price_bounds S K disc_q disc_r OptionType.call =
      (max nought (S * disc_q - K * disc_r), S * disc_q)
  price_bounds S K disc_q disc_r OptionType.put = (max nought (K * disc_r - S * disc_q), K * disc_r)
