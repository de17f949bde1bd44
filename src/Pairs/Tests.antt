-- ===== src/Pairs/Tests.antt =====
-- A pair that is bought two deviations below its mean, held, and sold at the mean.
use quant_pilot.Base.{ℕ, ◌≡◌, refl, false, true, some, List, [], ◌∷◌, map, maybe}
use quant_pilot.Base.Int.{ℤ, pos, negsuc}
use quant_pilot.Float.{literal}
use quant_pilot.Float.Fixed.{fixed}
use quant_pilot.Float.Scaled.{fixed_literal, fixed_mul, fixed_div, fixed_of_int}
use quant_pilot.Pairs.{
  PairConfig, ValidatedPair, default_pairs, max_no_cross, count_bar, enter, trade, next, legs,
  hedge_leg, walk_from, bars_of, walk_pair, pair_leg_weights, Walk,
}
use quant_pilot.Pairs.Pieces.{IsPiecewise, flat_row}
use quant_pilot.Pairs.Total.{pair_leg_weights_lem}
use quant_pilot.Pairs.Retired.{IsRetiring, zscores, walk_pair-IsRetiring}

abbrev pair : ValidatedPair ℤ
pair = record {
  y = "TCS";
  x = "INFY";
  hedge_ratio = pos 500_000;
  intercept = pos 0;
  pvalue = pos 10_000;
  ou = record {
    theta = pos 69_315;
    mu = pos 0;
    sigma = pos 100_000;
    half_life = pos 10_000_000;
    is_mean_reverting = true;
  };
}

abbrev closes : List (ℤ × ℤ)
closes =
    (pos 50_000_000, pos 100_000_000)
    ∷ (pos 40_000_000, pos 100_000_000)
    ∷ (pos 45_000_000, pos 100_000_000)
    ∷ (pos 51_000_000, pos 100_000_000)
    ∷ []

-- Given z-scores: 0, -2.5, -1 and 0.5.
abbrev zscore : ℕ → List ℤ → List ℤ
zscore window spread = pos 0 ∷ negsuc 2_499_999 ∷ negsuc 999_999 ∷ pos 500_000 ∷ []

abbrev rows : List (ℤ × ℤ)
rows =
    (pos 0, pos 0)
    ∷ (pos 1_000_000, negsuc 1_249_999)
    ∷ (pos 1_000_000, negsuc 1_249_999)
    ∷ (pos 0, pos 0)
    ∷ []

rows_of_pair : pair_leg_weights zscore closes pair default_pairs ≡ some rows
unfolding pair_leg_weights walk_pair walk_from next trade enter count_bar max_no_cross legs
    hedge_leg bars_of fixed_literal fixed_mul fixed_div fixed_of_int
rows_of_pair = refl

pair_leg_weights_lem_example :
    (rows : List (ℤ × ℤ)) × (pair_leg_weights zscore closes pair default_pairs ≡ some rows)
    × IsPiecewise (literal 1 0) (flat_row (literal 1 0)) rows
unfolding fixed_literal
pair_leg_weights_lem_example =
    pair_leg_weights_lem zscore closes pair default_pairs (refl, (refl, (refl, (refl, tt))))

-- At most one bar without a crossing.
abbrev impatient : PairConfig ℤ
impatient = record default_pairs { break_max_no_cross = 1 }

walk_pair-IsRetiring_example :
    (walks : List (Walk ℤ)) × (walk_pair zscore closes pair impatient ≡ some walks)
    × IsRetiring
        (max_no_cross impatient (pos 10_000_000))
        []
        (zscores zscore closes pair impatient)
        walks
unfolding fixed_literal
walk_pair-IsRetiring_example =
    walk_pair-IsRetiring zscore closes pair impatient (refl, (refl, (refl, (refl, tt))))

-- The second bar is the second without a crossing.
retired :
    maybe (walk_pair zscore closes pair impatient) [] (map (λ w. w.broken))
    ≡ false ∷ true ∷ true ∷ true ∷ []
unfolding walk_pair walk_from next trade enter count_bar max_no_cross bars_of fixed_literal
    fixed_mul fixed_div fixed_of_int
retired = refl
