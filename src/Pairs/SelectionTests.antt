-- ===== src/Pairs/SelectionTests.antt =====
-- One eligible pair whose spread reverts in the training rows and in the held-out rows.
use quant_pilot.Base.{
  ℕ, zero, suc, String, ◌≡◌, refl, true, Option, some, List, [], ◌∷◌, ◌==◌, if◌then◌else◌,
}
use quant_pilot.Base.Int.{ℤ, pos, negsuc, magnitude, ◌+ℤ◌, ◌-ℤ◌}
use quant_pilot.Base.Dict.{Dict, lookup}
use quant_pilot.Float.Fixed.{fixed, fixed-IsOrdered}
use quant_pilot.Float.Scaled.{
  fixed_literal, fixed_mul, fixed_div, fixed_of_int, fixed_to_int, fixed_sqrt,
}
use quant_pilot.Pairs.{PairConfig, ValidatedPair, default_pairs, compute_spread}
use quant_pilot.Pairs.OuProcess.{Statistics, fit_ou, engle_granger, half_life}
use quant_pilot.Pairs.StepUp.{is_rejected}
use quant_pilot.Pairs.Selection.{
  is_tradable, select_pairs, infos_of, info_of, training_fit, is_eligible,
}
use quant_pilot.Pairs.Validated.{AllOf, IsInfo, IsHeldOut, select_pairs-AllOf}

abbrev np : Statistics ℤ
np = record {
  log = λ x. if magnitude x == 2_000_000 then pos 693_147 else negsuc 69_313;
  sum = λ xs. pos 10_000;
  mean = λ xs. pos 0;
  std = λ xs. pos 1_000_000;
  cumsum = λ xs. xs;
  sort = λ xs. xs;
  max = λ xs. pos 0;
  polyfit = λ xs. some (pos 10_000, pos 0);
  lstsq = λ xs. some (pos 0, pos 1_000_000);
  adfuller = λ xs. some (pos 10_000);
}

abbrev config : PairConfig ℤ
config = record default_pairs { train_frac = pos 300_000 }

abbrev row : ℕ → ℕ → List ℤ
row zero v = []
row (suc n) v = pos v ∷ row n v

abbrev close : Dict (List ℤ)
close = ("TCS", row 28 2_000_000) ∷ ("INFY", row 28 1_000_000) ∷ ("SBIN", []) ∷ []

abbrev candidates : List (String × String)
candidates = ("TCS", "SBIN") ∷ ("TCS", "INFY") ∷ []

abbrev eligible : Option (List String)
eligible = some ("INFY" ∷ "TCS" ∷ [])

abbrev info : ValidatedPair ℤ
info = record {
  y = "TCS";
  x = "INFY";
  hedge_ratio = pos 1_000_000;
  intercept = pos 0;
  pvalue = pos 10_000;
  ou = record {
    theta = pos 69_314;
    mu = pos 0;
    sigma = pos 16_651;
    half_life = pos 10_000_100;
    is_mean_reverting = true;
  };
}

fitted : infos_of np config close (pos 8) (("TCS", "INFY") ∷ []) ≡ some (info ∷ [])
unfolding infos_of info_of lookup engle_granger training_fit fit_ou half_life compute_spread
    fixed_literal fixed_mul fixed_div fixed_of_int fixed_sqrt ◌+ℤ◌ ◌-ℤ◌
fitted = refl

select_pairs-AllOf_example :
    AllOf np config close
      (pos 8)
      (λ i.
        IsInfo np config close (pos 8) candidates eligible i
        × (is_rejected 1 (pos 50_000) 1 (pos 10_000 ∷ []) i.pvalue ≡ true)
        × (is_tradable np config i.ou ≡ true)
        × IsHeldOut np config close (pos 8) i)
      (select_pairs np config candidates 28 close eligible)
unfolding is_eligible fixed_literal fixed_to_int fixed_of_int fixed_mul
select_pairs-AllOf_example =
    select_pairs-AllOf np config fixed-IsOrdered candidates 28 close eligible (pos 8) (info ∷ [])
      refl fitted (tt, tt)
