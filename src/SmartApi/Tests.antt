-- ===== src/SmartApi/Tests.antt =====
-- An order that is placed with a service that is kept in memory: its state is its order book.
use quant_pilot.Base.{zero, ◌≡◌, refl, none, some, [], ◌∷◌, str_eq, if◌then◌else◌}
use quant_pilot.Base.Int.{ℤ, pos}
use quant_pilot.Base.Dict.{lookup}
use quant_pilot.Domain.{Order, OrderSide, OrderType, OrderStatus}
use quant_pilot.Float.Fixed.{fixed}
use quant_pilot.Float.Scaled.{fixed_to_int, fixed_literal}
use quant_pilot.PaperBroker.Samples.{order, rupees}
use quant_pilot.SmartApi.{
  order_of_row, Elements, array, object, done, field, SmartApiClient, SmartApiBroker, Conversions,
  order_status, to_float,
}
use quant_pilot.SmartApi.Echo.{IsConversions, placed_row, order_of_row-order_params}

abbrev conv : Conversions ℤ
conv = record {
  upper = λ t.
      if str_eq t "buy"
      then "BUY"
      else if str_eq t "sell"
      then "SELL"
      else if str_eq t "market"
      then "MARKET"
      else if str_eq t "limit"
      then "LIMIT"
      else t;
  lower = λ t. t;
  int_str = λ n. elim n [ pos zero ↦ "0" | _ ↦ "10" ];
  float_str = λ x. "90.0";
  json_str = λ json. "None";
  parse_float = λ t.
      if str_eq t "90.0"
      then some (rupees 90)
      else if str_eq t "10"
      then some (rupees 10)
      else some (pos 0);
  to_integer = λ json. none;
}

conv-IsConversions : IsConversions conv
unfolding fixed_literal
conv-IsConversions = record {
  buy_upper = refl;
  sell_upper = refl;
  market_upper = refl;
  limit_upper = refl;
  upper_buy = refl;
  upper_sell = refl;
  upper_market = refl;
  upper_limit = refl;
  parse_zero = refl;
  nought_eq = refl;
}

abbrev client : SmartApiClient ℤ (Elements ℤ)
client = record {
  place = λ params rows. none;
  modify = λ params rows. some rows;
  cancel = λ variety id rows. some rows;
  order_book = λ rows. some (object (field "data" (array rows) done));
  position = λ rows. none;
  rms_limit = λ rows. none;
}

abbrev broker : SmartApiBroker ℤ
broker = record { token_map = ("INFY", "1594") ∷ []; exchange = "NSE"; product = "DELIVERY" }

abbrev bid : Order ℤ
bid = order "o1" OrderSide.buy 10 OrderType.limit

order_of_row-order_params_example :
    order_of_row conv client broker 5 "new"
      (placed_row conv conv-IsConversions client broker "A7" "open" "1594" bid)
    ≡ some (record bid {
      id = "A7";
      broker_order_id = some "A7";
      status = OrderStatus.submitted;
      created_at = 5;
    })
unfolding to_float order_status fixed_to_int fixed_literal lookup
order_of_row-order_params_example =
    order_of_row-order_params conv conv-IsConversions client broker 5 "new" "A7" "open" "1594" bid
      refl refl (λ p is_price. is_price)
