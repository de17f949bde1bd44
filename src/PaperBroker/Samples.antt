-- ===== src/PaperBroker/Samples.antt =====
-- A broker with a cash of one lakh, and orders, for the tests. Numbers are fixed-point numbers with
-- six places.
use quant_pilot.Base.{ℕ, ◌*◌, String, false, none, some, [], ◌∷◌}
use quant_pilot.Base.Int.{ℤ, pos}
use quant_pilot.Domain.{Order, OrderSide, OrderType, pending}
use quant_pilot.Float.Fixed.{fixed}
use quant_pilot.Costs.{default_costs}
use quant_pilot.Impact.{default_impact}
use quant_pilot.PaperBroker.{PaperBroker}

abbrev pub rupees : ℕ → ℤ
rupees n = pos (n * 1_000_000)

abbrev pub order : String → OrderSide → ℕ → OrderType → Order ℤ
order id side quantity order_type = record {
  id = id;
  symbol = "INFY";
  side = side;
  quantity = pos quantity;
  order_type = order_type;
  limit_price = some (rupees 90);
  status = pending;
  broker_order_id = none;
  reason = none;
  created_at = 0;
  approved_at = none;
}

-- One lakh of cash, and a mark of 100.
abbrev pub broker : PaperBroker ℤ
broker = record {
  cash = rupees 100_000;
  cost = default_costs;
  impact = default_impact;
  positions = [];
  orders = [];
  marks = ("INFY", rupees 100) ∷ [];
  halted = false;
}
