-- ===== src/SmartApi/Echo.antt =====
-- What `SmartApiBroker` sends to place an order, and how it reads a row of the order book.
use quant_pilot.Base.{
  ℕ, String, ◌≡◌, refl, true, false, Option, none, some, [], ◌∷◌, maybe, str_eq, if◌then◌else◌,
  Bool-cases, inl, inr,
}
use quant_pilot.Base.Int.{pos}
use quant_pilot.Base.Dict.{Dict}
use quant_pilot.Domain.{Order, OrderSide, OrderType, side_value, type_value}
use quant_pilot.Float.{Float, nought, eq}
use quant_pilot.SmartApi.{
  Json, Fields, text, object, done, field, SmartApiClient, SmartApiBroker, Conversions, get,
  order_status, to_float, nonzero, price_text, order_params, order_of_fields, order_of_row,
}

-- A dictionary of texts, as fields.
abbrev pub texts : {F : Type 0} → Dict String → Fields F
texts [] = done
texts ((name, value) ∷ d) = field name (text value) (texts d)

-- Python's conversions of the texts that are sent.
pub record IsConversions {F : Type 0} ⦃d : Float F⦄ (conv : Conversions F) : Type 0 where
  pub buy_upper : conv.upper "buy" ≡ "BUY"
  pub sell_upper : conv.upper "sell" ≡ "SELL"
  pub market_upper : conv.upper "market" ≡ "MARKET"
  pub limit_upper : conv.upper "limit" ≡ "LIMIT"
  pub upper_buy : conv.upper "BUY" ≡ "BUY"
  pub upper_sell : conv.upper "SELL" ≡ "SELL"
  pub upper_market : conv.upper "MARKET" ≡ "MARKET"
  pub upper_limit : conv.upper "LIMIT" ≡ "LIMIT"
  pub parse_zero : conv.parse_float (conv.int_str (pos 0)) ≡ some nought
  pub nought_eq : eq {F = F} nought nought ≡ true

module _ {F S : Type 0} ⦃d : Float F⦄ (conv : Conversions F) (laws : IsConversions conv)
    (client : SmartApiClient F S) (broker : SmartApiBroker F) where
  -- A row of an order book with an id, a status and the parameters of a placement.
  abbrev pub placed_row : String → String → String → Order F → Json F
  placed_row listed_id status token order = object (
      texts
        (("orderid", listed_id) ∷ ("status", status) ∷ order_params conv client broker token order))

  -- The order of that row.
  abbrev pub read_back : ℕ → String → String → Order F → Order F
  read_back now listed_id status order = record {
    id = listed_id;
    symbol = order.symbol;
    side = order.side;
    quantity = order.quantity;
    order_type = order.order_type;
    limit_price = maybe order.limit_price none λ p. if eq p nought then none else some p;
    status = order_status (conv.lower status);
    broker_order_id = some listed_id;
    reason = none;
    created_at = now;
    approved_at = none;
  }

  side_read :
      (side : OrderSide)
      → (if str_eq (conv.upper (conv.upper (side_value side))) "BUY"
          then OrderSide.buy
          else OrderSide.sell)
        ≡ side
  side_read OrderSide.buy = rw laws.buy_upper (rw laws.upper_buy refl)
  side_read OrderSide.sell = rw laws.sell_upper (rw laws.upper_sell refl)

  type_read :
      (t : OrderType)
      → (if str_eq (conv.upper (conv.upper (type_value t))) "MARKET"
          then OrderType.market
          else OrderType.limit)
        ≡ t
  type_read OrderType.market = rw laws.market_upper (rw laws.upper_market refl)
  type_read OrderType.limit = rw laws.limit_upper (rw laws.upper_limit refl)

  price_read :
      (price : Option F)
      → ((p : F) → price ≡ some p → conv.parse_float (conv.float_str p) ≡ some p)
      → nonzero conv (to_float conv (some (text (price_text conv price))))
        ≡ (maybe price none λ p. if eq p nought then none else some p)
  unfolding to_float price_text
  price_read none printed = rw laws.parse_zero (rw laws.nought_eq refl)
  price_read (some p) printed = elim (Bool-cases (eq p nought)) [
    | inl zero ↦ rw zero (rw laws.parse_zero (rw laws.nought_eq refl))
    | inr other ↦ rw other (rw (printed p refl) (rw other refl))
  ]

  -- The parameters that are sent for an order have the names and the spellings that the reader of
  -- the order book expects: a row with these parameters, an id that is not empty and a status is read
  -- as an order with the symbol, the side, the quantity, the type and the limit price (none for a
  -- price of zero) of the placed one, that id, and the status that the text stands for. The quantity
  -- and the price are printed so that `float` reads them back.
  pub order_of_row-order_params :
      (now : ℕ) (new_id listed_id status token : String) (order : Order F)
      → str_eq listed_id "" ≡ false
      → d.to_int (to_float conv (some (text (conv.int_str order.quantity)))) ≡ some order.quantity
      → ((p : F) → order.limit_price ≡ some p → conv.parse_float (conv.float_str p) ≡ some p)
      → order_of_row conv client broker now new_id (placed_row listed_id status token order)
        ≡ some (read_back now listed_id status order)
  unfolding order_of_row order_of_fields get order_params
  order_of_row-order_params now new_id listed_id status token order known whole printed = rw whole (
      rw (side_read order.side) (
        rw (type_read order.order_type)
          (rw (price_read order.limit_price printed) (rw known refl))))
