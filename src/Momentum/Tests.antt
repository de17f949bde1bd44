-- ===== src/Momentum/Tests.antt =====
-- Two symbols over four days, of which one is a member of the index.
use quant_pilot.Base.{ℕ, String, ◌≡◌, Option, none, some, List, [], ◌∷◌, str_eq, maybe, refl}
use quant_pilot.Base.Int.{ℤ, pos, ◌-ℤ◌, ◌+ℤ◌}
use quant_pilot.Float.Fixed.{fixed}
use quant_pilot.Float.Scaled.{fixed_literal, fixed_mul, fixed_div, fixed_of_int, fixed_to_int}
use quant_pilot.Momentum.{
  Row, Eligibility, target_row, scores_of, momentum_score, inverse_vol, regime_scale, n_select,
}
use quant_pilot.Momentum.Samples.{pd, config, row}

abbrev close : List (ℕ × Row ℤ)
close =
    (1, row 2_000_000 1_000_000)
    ∷ (2, row 2_500_000 1_000_000)
    ∷ (3, row 3_000_000 1_000_000)
    ∷ (4, row 1_000_000 9_000_000)
    ∷ []

abbrev symbols : List String
symbols = "TCS" ∷ "INFY" ∷ []

abbrev membership : Option Eligibility
membership = some (λ t. some (λ s. some (str_eq s "TCS")))

weights_of_member :
    maybe {B = ℤ × ℤ}
      (target_row pd config symbols close membership none 3)
      (pos 0, pos 0)
      (λ w. (w "TCS", w "INFY"))
    ≡ (pos 1_000_000, pos 0)
unfolding target_row scores_of momentum_score inverse_vol regime_scale n_select fixed_literal
    fixed_mul fixed_div fixed_of_int fixed_to_int ◌-ℤ◌ ◌+ℤ◌
weights_of_member = refl
