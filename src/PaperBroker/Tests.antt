-- ===== src/PaperBroker/Tests.antt =====
-- What the broker of PaperBroker/Samples does with a few orders.
use quant_pilot.Base.{String, ◌≡◌, refl, true, false, none, some, List, [], ◌∷◌}
use quant_pilot.Base.Int.{ℤ, negsuc, ◌+ℤ◌, ◌-ℤ◌}
use quant_pilot.Base.Dict.{Dict, lookup, insert, remove, values}
use quant_pilot.Domain.{Order, buy, market, limit, pending, filled}
use quant_pilot.Float.{nought, le}
use quant_pilot.Float.Fixed.{fixed, fixed-HasSigns}
use quant_pilot.Float.Scaled.{fixed_literal, fixed_mul, fixed_div, fixed_of_int, fixed_sqrt}
use quant_pilot.Costs.{default_costs, compute_costs, transaction_tax}
use quant_pilot.Impact.{default_impact, compute_impact}
use quant_pilot.PaperBroker
use quant_pilot.PaperBroker.{
  PaperBroker, set_mark, place_order, place_at, fill, reject, book_fill, fill_price, fill_cost,
  apply_position, keep_position, average_price, position_or, marketable, process_pending,
  process_all, process_order, with_broker_id, update_marks,
}
use quant_pilot.PaperBroker.Samples.{rupees, order, broker}
use quant_pilot.PaperBroker.Frame.{IsValid}
use quant_pilot.PaperBroker.Halt.{marks_ignore_halt}
use quant_pilot.PaperBroker.Trading.{
  Accounts, WithinLimit, place_order-Accounts, place_order-cash_nonneg, shares_of-apply_position,
}
use quant_pilot.PaperBroker.Lifecycle.Placing.{Places, place_order-Works}
use quant_pilot.PaperBroker.Lifecycle.Matching.{IsTriggered, process_pending-settled}
use quant_pilot.PaperBroker.Lifecycle.Runs.{Command, run, run-IsValid, run-closed}

abbrev halted_broker : PaperBroker ℤ
halted_broker = record broker { halted = true }

abbrev bought : PaperBroker ℤ × Order ℤ
bought = place_order broker "b1" (order "o1" buy 10 market)

-- The limit of 90 is below the mark, so this order rests.
abbrev resting : PaperBroker ℤ × Order ℤ
resting = place_order broker "b2" (order "o2" buy 10 limit)

abbrev resting_broker : PaperBroker ℤ
resting_broker = resting.0

bought_status : (bought.1.status ≡ filled) × (resting.1.status ≡ pending)
unfolding place_order place_at fill reject book_fill fill_price fill_cost apply_position
    keep_position average_price position_or compute_costs transaction_tax compute_impact marketable
    lookup insert remove fixed_mul fixed_div fixed_literal fixed_of_int fixed_sqrt ◌+ℤ◌ ◌-ℤ◌
bought_status = (refl, refl)

broker-IsValid : IsValid broker
broker-IsValid = record { unique_orders = tt; keyed = tt; unique_positions = tt; has_shares = tt }

resting-IsValid : IsValid resting_broker
unfolding place_order place_at fill reject book_fill fill_price fill_cost apply_position
    keep_position average_price position_or compute_costs transaction_tax compute_impact marketable
    lookup insert remove fixed_mul fixed_div fixed_literal fixed_of_int fixed_sqrt ◌+ℤ◌ ◌-ℤ◌
resting-IsValid = record {
  unique_orders = (refl, tt);
  keyed = (refl, tt);
  unique_positions = tt;
  has_shares = tt;
}

bought-IsValid : IsValid bought.0
unfolding place_order place_at fill reject book_fill fill_price fill_cost apply_position
    keep_position average_price position_or compute_costs transaction_tax compute_impact marketable
    lookup insert remove fixed_mul fixed_div fixed_literal fixed_of_int fixed_sqrt ◌+ℤ◌ ◌-ℤ◌
bought-IsValid = record {
  unique_orders = (refl, tt);
  keyed = (refl, tt);
  unique_positions = (refl, tt);
  has_shares = (refl, tt);
}

place_order-Works_example : Places broker (with_broker_id "b1" (order "o1" buy 10 market)) bought
place_order-Works_example = place_order-Works broker "b1" (order "o1" buy 10 market)

place_order-Accounts_example :
    (broker.halted ≡ false)
    × ((mark : ℤ) × (lookup "INFY" broker.marks ≡ some mark)
        × (le mark nought ≡ false)
        × WithinLimit (order "o1" buy 10 market) mark
        × Accounts broker (with_broker_id "b1" (order "o1" buy 10 market)) mark bought.0 bought.1)
unfolding place_order place_at fill reject book_fill fill_price fill_cost apply_position
    keep_position average_price position_or compute_costs transaction_tax compute_impact marketable
    lookup insert remove fixed_mul fixed_div fixed_literal fixed_of_int fixed_sqrt ◌+ℤ◌ ◌-ℤ◌
place_order-Accounts_example = place_order-Accounts broker "b1" (order "o1" buy 10 market) refl

place_order-cash_nonneg_example : le nought bought.0.cash ≡ true
unfolding fixed_literal
place_order-cash_nonneg_example =
    place_order-cash_nonneg fixed-HasSigns broker "b1" (order "o1" buy 10 market) refl refl
      (λ m h. refl) refl

shares_of-apply_position_example :
    lookup "INFY"
      (apply_position (("INFY", (rupees 5, rupees 80)) ∷ []) "INFY" (negsuc 4_999_999) (rupees 100))
    ≡ none
unfolding fixed_literal lookup position_or ◌+ℤ◌
shares_of-apply_position_example =
    shares_of-apply_position (("INFY", (rupees 5, rupees 80)) ∷ []) "INFY" "INFY" (negsuc 4_999_999)
      (rupees 100) (refl, tt)

process_pending-settled_example : ¬ (IsTriggered resting_broker.marks resting.1)
unfolding process_pending process_all process_order values place_order place_at fill reject
    book_fill fill_price fill_cost apply_position keep_position average_price position_or
    compute_costs transaction_tax compute_impact marketable lookup insert remove fixed_mul fixed_div
    fixed_literal fixed_of_int fixed_sqrt ◌+ℤ◌ ◌-ℤ◌
process_pending-settled_example =
    process_pending-settled resting_broker "o2" resting.1 resting-IsValid refl refl

marks_ignore_halt_example :
    ((symbol : String) (price : ℤ)
      → set_mark (PaperBroker.halt resting_broker) symbol price
        ≡ PaperBroker.halt (set_mark resting_broker symbol price))
    × ((prices : Dict ℤ)
        → update_marks (PaperBroker.halt resting_broker) prices
          ≡ PaperBroker.halt (update_marks resting_broker prices))
marks_ignore_halt_example = marks_ignore_halt resting_broker

abbrev calls : List (Command ℤ)
calls = Command.place "b1" (order "o1" buy 10 market) ∷ Command.cancel "o1" ∷ []

run-IsValid_example :
    IsValid (run (PaperBroker.init (rupees 100_000) default_costs default_impact) calls)
run-IsValid_example = run-IsValid (rupees 100_000) default_costs default_impact calls

run-closed_example :
    lookup "o1"
      (run bought.0 (Command.cancel "o1" ∷ Command.new_mark "INFY" (rupees 80) ∷ [])).orders
    ≡ some bought.1
unfolding place_order place_at fill reject book_fill fill_price fill_cost apply_position
    keep_position average_price position_or compute_costs transaction_tax compute_impact marketable
    lookup insert remove fixed_mul fixed_div fixed_literal fixed_of_int fixed_sqrt ◌+ℤ◌ ◌-ℤ◌
run-closed_example =
    run-closed bought.0 (Command.cancel "o1" ∷ Command.new_mark "INFY" (rupees 80) ∷ []) "o1"
      bought.1 bought-IsValid (tt, (tt, tt)) refl refl
