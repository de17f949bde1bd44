-- ===== src/Momentum/Samples.antt =====
-- A small `pandas` and a configuration on which the strategy runs.
use quant_pilot.Base.{ℕ, ◌-◌, ◌/◌, String, List, [], ◌∷◌, str_eq, if◌then◌else◌}
use quant_pilot.Base.Int.{ℤ, pos}
use quant_pilot.Float.Fixed.{fixed}
use quant_pilot.Momentum.{MomentumConfig, Row, Pandas}

-- `pandas` on numbers that are small enough to follow.
abbrev pub pd : Pandas ℤ
pd = record {
  months_before = λ t n. t - n;
  month_of = λ t. t / 30;
  asof = last_row;
  rolling_deviation = λ window closes. pos 20_000;
  nlargest = first_keys;
  mean = first_of;
  sum = λ xs. pos 50_000_000;
  divide = fixed.div;
}
  where
    last_row : List (Row ℤ) → Row ℤ
    last_row [] = λ s. pos 1_000_000
    last_row (r ∷ []) = r
    last_row (r ∷ q ∷ rows) = last_row (q ∷ rows)

    first_of : List ℤ → ℤ
    first_of [] = pos 0
    first_of (x ∷ xs) = x

    first_keys : ℕ → List (String × ℤ) → List String
    first_keys n [] = []
    first_keys n ((s, x) ∷ xs) = s ∷ []

abbrev pub config : MomentumConfig ℤ
config = record {
  lookbacks = 1 ∷ [];
  skip_months = 0;
  long_pct = pos 500_000;
  vol_window = 20;
  turnover_band = pos 0;
  vrp_window = 504;
  min_exposure = pos 500_000;
  gross_exposure = pos 1_000_000;
}

abbrev pub row : ℕ → ℕ → Row ℤ
row a b s = if str_eq s "TCS" then pos a else pos b
