-- ===== src/Engine/Tests.antt =====
-- Two symbols over three dates, one of them halted on the second.
use quant_pilot.Base.{
  String, ◌≡◌, refl, Bool, true, false, Option, none, some, List, [], ◌∷◌, map, take, str_eq,
  if◌then◌else◌,
}
use quant_pilot.Base.Int.{ℤ, pos, ◌+ℤ◌, ◌-ℤ◌}
use quant_pilot.Float.Fixed.{fixed}
use quant_pilot.Float.Scaled.{fixed_literal, fixed_mul, fixed_div, fixed_sqrt}
use quant_pilot.Costs.{default_costs, delivery, total_cost, transaction_tax}
use quant_pilot.Impact.{default_impact, cap_element, impact_cost}
use quant_pilot.Engine.{
  Day, Engine, Book, start_book, simulate, run_day, trade_day, close_day, rebalance, desired,
  tradeable, array_equal,
}
use quant_pilot.Engine.Samples.{np}
use quant_pilot.Engine.Causal.{trades, simulate_causal}

abbrev engine : Engine ℤ
engine = record {
  costs = default_costs;
  impact = default_impact;
  initial_capital = pos 1_000_000_000;
  segment = delivery;
  vol_window = 20;
  adv_window = 20;
}

abbrev symbols : List String
symbols = "INFY" ∷ "TCS" ∷ []

abbrev day : Bool → (String → Option ℤ) → Day ℤ
day halted target = record {
  open_price = λ s. pos 100_000_000;
  close_price = λ s. pos 110_000_000;
  volume = λ s. pos 0;
  halted = λ s. if str_eq s "TCS" then halted else false;
  target = target;
}

-- Half of the capital in each symbol, decided on the first date.
abbrev halves : String → Option ℤ
halves s = some (pos 500_000)

abbrev quiet : String → Option ℤ
quiet s = none

simulate_causal_example :
    map (trades np engine symbols) (
      take 2 (
        simulate np engine symbols
          (start_book np engine symbols)
          (day false halves ∷ day true quiet ∷ [])))
    ≡ map (trades np engine symbols) (
        take 2 (
          simulate np engine symbols
            (start_book np engine symbols)
            (day false halves ∷ day true halves ∷ day false quiet ∷ [])))
simulate_causal_example =
    simulate_causal np engine symbols (start_book np engine symbols) (day false halves ∷ [])
      (day true quiet) (day true halves) [] (day false quiet ∷ []) refl refl

abbrev begun : Book ℤ
begun = (run_day np engine symbols (start_book np engine symbols) (day false halves)).0

-- The halted symbol is not bought.
positions_of_run :
    let r = (run_day np engine symbols begun (day true quiet)).1 in
    (r.positions "INFY" ≡ pos 5_000_000) × (r.positions "TCS" ≡ pos 0)
unfolding run_day trade_day close_day rebalance desired tradeable array_equal cap_element total_cost
    transaction_tax impact_cost fixed_literal fixed_mul fixed_div fixed_sqrt ◌+ℤ◌ ◌-ℤ◌
positions_of_run = (refl, refl)
