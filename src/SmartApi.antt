-- ===== src/SmartApi.antt =====
-- src/quant_pilot/adapters/broker/smartapi_broker.py: `SmartApiBroker`, method by method. The client of
-- the service is a parameter; `none` is an exception. Python's conversions between texts and numbers
-- are parameters too. An order id that the service returns is a text.
pub mod Echo
mod Tests
use quant_pilot.Base.{
  ℕ, suc, String, Bool, true, false, Option, none, some, List, [], ◌∷◌, maybe, str_eq,
  if◌then◌else◌,
}
use quant_pilot.Base.Int.{ℤ, pos}
use quant_pilot.Base.Dict.{Dict, lookup}
use quant_pilot.Domain.{
  Order, OrderSide, OrderType, OrderStatus, Position, MarginInfo, side_value, type_value,
  submitted_to_smart_api,
}
use quant_pilot.Float.{Float, ◌+◌, nought, truthy, of_int}

-- What a response is made of.
mutual
  pub data Json (F : Type 0) : Type 0 where
    null : Json F
    flag : Bool → Json F
    number : F → Json F
    text : String → Json F
    array : Elements F → Json F
    object : Fields F → Json F

  pub data Elements (F : Type 0) : Type 0 where
    last : Elements F
    element : Json F → Elements F → Elements F

  pub data Fields (F : Type 0) : Type 0 where
    done : Fields F
    field : String → Json F → Fields F → Fields F

pub record SmartApiClient (F S : Type 0) : Type 0 where
  pub place : Dict String → S → Option (S × Json F)
  pub modify : Fields F → S → Option S
  pub cancel : String → String → S → Option S
  pub order_book : S → Option (Json F)
  pub position : S → Option (Json F)
  pub rms_limit : S → Option (Json F)

-- `str.upper`, `str.lower`, `str`, `float(text)`, and `int(value)` of an argument.
pub record Conversions (F : Type 0) : Type 0 where
  pub upper : String → String
  pub lower : String → String
  pub int_str : ℤ → String
  pub float_str : F → String
  -- `str` of a value that is not a text
  pub json_str : Json F → String
  pub parse_float : String → Option F
  pub to_integer : Json F → Option ℤ

module _ {F : Type 0} where
  -- `d.get(key)`
  unfoldable pub get : String → Fields F → Option (Json F)
  get key done = none
  get key (field name value fs) = if str_eq name key then some value else get key fs

  -- `{**d, **e}`
  unfoldable pub set : String → Json F → Fields F → Fields F
  set key value done = field key value done
  set key value (field name old fs) =
      if str_eq name key then field name value fs else field name old (set key value fs)

  unfoldable pub merge : Fields F → Fields F → Fields F
  merge fs done = fs
  merge fs (field name value gs) = merge (set name value fs) gs

  -- A list, and nothing of any other value.
  abbrev pub elements_of : Option (Json F) → Elements F
  elements_of (some (array js)) = js
  elements_of _ = last

  -- `_rows`
  unfoldable pub rows_of : Json F → Elements F
  rows_of (object fs) = elements_of (get "data" fs)
  rows_of (array js) = js
  rows_of _ = last

  abbrev pub fields_or : Fields F → Option (Json F) → Fields F
  fields_or fs (some (object ds)) = ds
  fields_or fs _ = fs

  -- `_data`
  unfoldable pub data_of : Json F → Fields F
  data_of (object fs) = fields_or fs (get "data" fs)
  data_of _ = done

  abbrev pub text_of : Option (Json F) → Option String
  text_of (some (text id)) = some id
  text_of _ = none

  -- `_order_id`
  unfoldable pub order_id : Json F → Option String
  order_id (text id) = some id
  order_id (object fs) = text_of (get "orderid" (data_of (object fs)))
  order_id _ = none

-- `_STATUS_MAP.get(text, OrderStatus.SUBMITTED)`
unfoldable pub order_status : String → OrderStatus
order_status s =
    maybe
      (lookup s (
        ("complete", OrderStatus.filled)
        ∷ ("rejected", OrderStatus.rejected)
        ∷ ("cancelled", OrderStatus.cancelled)
        ∷ ("open", OrderStatus.submitted)
        ∷ ("open pending", OrderStatus.pending)
        ∷ ("pending", OrderStatus.pending)
        ∷ ("trigger pending", OrderStatus.pending)
        ∷ ("validation pending", OrderStatus.pending)
        ∷ ("modified", OrderStatus.submitted)
        ∷ []))
      OrderStatus.submitted λ status. status

module _ {F : Type 0} ⦃d : Float F⦄ (conv : Conversions F) where
  abbrev pub str : Json F → String
  str (text s) = s
  str json = conv.json_str json

  -- `_f` of `d.get(key)`; `float(True)` is 1.0.
  unfoldable pub to_float : Option (Json F) → F
  to_float (some (number x)) = x
  to_float (some (flag b)) = if b then of_int (pos 1) else nought
  to_float (some (text s)) = maybe (conv.parse_float s) nought λ x. x
  to_float _ = nought

  -- `str(r.get(key, ""))`
  abbrev pub field_text : String → Fields F → String
  field_text key r = maybe (get key r) "" str

  -- `x or None`
  abbrev pub nonzero : F → Option F
  nonzero x = if truthy x then some x else none

  -- `order.limit_price or 0`, printed
  unfoldable pub price_text : Option F → String
  price_text price =
      maybe price (conv.int_str (pos 0))
        λ p. if truthy p then conv.float_str p else conv.int_str (pos 0)

pub record SmartApiBroker (F : Type 0) : Type 0 where
  pub token_map : Dict String
  pub exchange : String
  pub product : String

-- An order with the field defaults of the model.
abbrev pub plain_order :
    {F : Type 0} → String → ℕ → String → OrderSide → ℤ → OrderStatus → Option String → Order F
plain_order id now symbol side quantity status broker_order_id = record {
  id = id;
  symbol = symbol;
  side = side;
  quantity = quantity;
  order_type = OrderType.market;
  limit_price = none;
  status = status;
  broker_order_id = broker_order_id;
  reason = none;
  created_at = now;
  approved_at = none;
}

module _ {F S : Type 0} ⦃d : Float F⦄ (conv : Conversions F) (client : SmartApiClient F S)
    (broker : SmartApiBroker F) where
  -- `params`
  unfoldable pub order_params : String → Order F → Dict String
  order_params token order =
      ("variety", "NORMAL")
      ∷ ("tradingsymbol", order.symbol)
      ∷ ("symboltoken", token)
      ∷ ("transactiontype", conv.upper (side_value order.side))
      ∷ ("exchange", broker.exchange)
      ∷ ("ordertype", conv.upper (type_value order.order_type))
      ∷ ("producttype", broker.product)
      ∷ ("duration", "DAY")
      ∷ ("price", price_text conv order.limit_price)
      ∷ ("quantity", conv.int_str order.quantity)
      ∷ []

  unfoldable pub place_order : Order F → S → Option (S × Order F)
  place_order order s = maybe (lookup order.symbol broker.token_map) none λ token.
      maybe (client.place (order_params token order) s) none λ (s', resp). some (
        s',
        record order {
          broker_order_id = order_id resp;
          status = OrderStatus.submitted;
          reason = some submitted_to_smart_api;
        },
      )

  -- The order is sent before its new quantity is converted: the state is new even where that raises.
  unfoldable pub modify_order : ℕ → String → Fields F → S → S × Option (Order F)
  modify_order now id changes s =
      let params =
        merge (field "variety" (text "NORMAL") (field "orderid" (text id) done)) changes in
      maybe (client.modify params s) (s, none)
        λ s'. (
          s',
          maybe (maybe (get "quantity" changes) (some (pos 0)) conv.to_integer) none λ quantity.
              some (
                plain_order id now (field_text conv "tradingsymbol" changes) OrderSide.buy quantity
                  OrderStatus.submitted (some id)),
        )

  unfoldable pub cancel_order : ℕ → String → S → Option (S × Order F)
  cancel_order now id s =
      maybe (client.cancel "NORMAL" id s) none
        λ s'. some (s', plain_order id now "" OrderSide.buy (pos 0) OrderStatus.cancelled (some id))

  -- The order of a row; an id that is missing is a new one. `none` is a quantity that no integer is.
  unfoldable pub order_of_fields : ℕ → String → Fields F → Option (Order F)
  order_of_fields now new_id r =
      let oid = field_text conv "orderid" r in
      maybe (d.to_int (to_float conv (get "quantity" r))) none λ quantity. some (record {
        id = if str_eq oid "" then new_id else oid;
        symbol = field_text conv "tradingsymbol" r;
        side =
            if str_eq (conv.upper (field_text conv "transactiontype" r)) "BUY"
            then OrderSide.buy
            else OrderSide.sell;
        quantity = quantity;
        order_type =
            if str_eq (conv.upper (field_text conv "ordertype" r)) "MARKET"
            then OrderType.market
            else OrderType.limit;
        limit_price = nonzero conv (to_float conv (get "price" r));
        status = order_status (conv.lower (field_text conv "status" r));
        broker_order_id = some oid;
        reason = none;
        created_at = now;
        approved_at = none;
      })

  -- A row that is no object raises.
  unfoldable pub order_of_row : ℕ → String → Json F → Option (Order F)
  order_of_row now new_id (object r) = order_of_fields now new_id r
  order_of_row now new_id _ = none

  -- `ids` are the new ids, by the place of the row.
  unfoldable pub orders_of : ℕ → (ℕ → String) → ℕ → Elements F → Option (List (Order F))
  orders_of now ids i last = some []
  orders_of now ids i (element r rows) =
      maybe (order_of_row now (ids i) r) none
        λ order. maybe (orders_of now ids (suc i) rows) none λ orders. some (order ∷ orders)

  unfoldable pub get_orders : ℕ → (ℕ → String) → S → Option (List (Order F))
  get_orders now ids s = maybe (client.order_book s) none λ resp. orders_of now ids 0 (rows_of resp)

  unfoldable pub position_of_row : Json F → Option (Position F)
  position_of_row (object r) = maybe (d.to_int (to_float conv (get "netqty" r))) none λ quantity.
      some (record {
        symbol = field_text conv "tradingsymbol" r;
        quantity = quantity;
        avg_price = to_float conv (get "avgnetprice" r);
        last_price = nonzero conv (to_float conv (get "ltp" r));
      })
  position_of_row _ = none

  unfoldable pub positions_of : Elements F → Option (List (Position F))
  positions_of last = some []
  positions_of (element r rows) =
      maybe (position_of_row r) none
        λ position. maybe (positions_of rows) none λ positions. some (position ∷ positions)

  unfoldable pub get_positions : S → Option (List (Position F))
  get_positions s = maybe (client.position s) none λ resp. positions_of (rows_of resp)

  unfoldable pub get_margin : S → Option (MarginInfo F)
  get_margin s = maybe (client.rms_limit s) none λ resp.
      let fs = data_of resp in
      let available =
        to_float conv (maybe (get "availablecash" fs) (get "net" fs) λ cash. some cash) in
      let used = to_float conv (get "utiliseddebits" fs) in
      some (record { available = available; used = used; total = available + used })
