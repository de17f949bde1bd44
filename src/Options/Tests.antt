-- ===== src/Options/Tests.antt =====
-- An option at the money, with functions of `math` that are simple enough to follow.
use quant_pilot.Base.{◌≡◌, refl, some}
use quant_pilot.Base.Int.{ℤ, pos, negsuc, ◌+ℤ◌, ◌-ℤ◌}
use quant_pilot.Float.Fixed.{fixed}
use quant_pilot.Float.Scaled.{fixed_literal, fixed_mul, fixed_div, fixed_sqrt}
use quant_pilot.Options.{
  OptionType, Math, Greeks, bs_greeks, bs_price, bs_vega, d1_d2, norm_cdf, norm_pdf, price_bounds,
}
use quant_pilot.Options.Implied.{
  bounds_at, newton_seed, solve, newton, bisect, implied_volatility, Ends, implied_volatility_lem,
}

abbrev unit : ℤ
unit = pos 1_000_000

abbrev math : Math ℤ
math = record {
  pi = pos 3_141_593;
  erf = λ x. x;
  exp = λ x. some unit;
  log = λ x. some (pos 0);
  sqrt = λ x. some unit;
}

abbrev market : ℤ
market = pos 100_000

abbrev tol : ℤ
tol = pos 10

implied_volatility_lem_example :
    Ends math market unit unit unit
      (pos 0)
      OptionType.call
      (pos 0)
      tol
      100
      (implied_volatility math market unit unit unit (pos 0) OptionType.call (pos 0) tol 100)
implied_volatility_lem_example =
    implied_volatility_lem math market unit unit unit (pos 0) OptionType.call (pos 0) tol 100

-- Newton's method finds the volatility of the market's price in the tolerance.
solved :
    implied_volatility math market unit unit unit (pos 0) OptionType.call (pos 0) tol 100
    ≡ some (pos 282_840)
unfolding implied_volatility solve newton bisect bounds_at price_bounds newton_seed bs_price bs_vega
    d1_d2 norm_pdf norm_cdf fixed_literal fixed_mul fixed_div fixed_sqrt ◌+ℤ◌ ◌-ℤ◌
solved = refl

abbrev greeks : Greeks ℤ
greeks = record {
  delta = negsuc 464_644;
  gamma = pos 1_994_710;
  theta = negsuc 39_893;
  vega = pos 398_942;
  rho = negsuc 535_354;
}

greeks_of_put :
    bs_greeks math unit unit unit (pos 0) (pos 200_000) OptionType.put (pos 0) ≡ some greeks
unfolding bs_greeks d1_d2 norm_pdf norm_cdf fixed_literal fixed_mul fixed_div fixed_sqrt ◌+ℤ◌ ◌-ℤ◌
greeks_of_put = refl
