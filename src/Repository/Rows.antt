-- ===== src/Repository/Rows.antt =====
-- `class OrderORM` of src/quant_pilot/adapters/persistence/models.py, the columns that `save_order`
-- writes, and the validation that reads a row back. Enumerations are stored by their texts.
use quant_pilot.Base.{ℕ, String, ◌≡◌, refl, Option, none, some, str_eq, maybe, if◌then◌else◌}
use quant_pilot.Base.Int.{ℤ}
use quant_pilot.Domain.{
  Order, OrderSide, OrderType, OrderStatus, Reason, side_value, type_value, status_value,
}

pub record OrderOrm (F : Type 0) : Type 0 where
  pub id : String
  pub symbol : String
  pub side : String
  pub quantity : ℤ
  pub order_type : String
  pub limit_price : Option F
  pub status : String
  pub broker_order_id : Option String
  pub reason : Option (Reason F)
  pub created_at : ℕ
  pub approved_at : Option ℕ

-- `OrderSide(text)` and the like; `none` is the validation error.
unfoldable pub parse_side : String → Option OrderSide
parse_side s =
    if str_eq s "buy"
    then some OrderSide.buy
    else if str_eq s "sell"
    then some OrderSide.sell
    else none

unfoldable pub parse_type : String → Option OrderType
parse_type s =
    if str_eq s "market"
    then some OrderType.market
    else if str_eq s "limit"
    then some OrderType.limit
    else none

unfoldable pub parse_status : String → Option OrderStatus
parse_status s =
    if str_eq s "pending"
    then some OrderStatus.pending
    else if str_eq s "approved"
    then some OrderStatus.approved
    else if str_eq s "submitted"
    then some OrderStatus.submitted
    else if str_eq s "filled"
    then some OrderStatus.filled
    else if str_eq s "rejected"
    then some OrderStatus.rejected
    else if str_eq s "cancelled"
    then some OrderStatus.cancelled
    else none

module _ {F : Type 0} where
  unfoldable pub order_row : Order F → OrderOrm F
  order_row o = record {
    id = o.id;
    symbol = o.symbol;
    side = side_value o.side;
    quantity = o.quantity;
    order_type = type_value o.order_type;
    limit_price = o.limit_price;
    status = status_value o.status;
    broker_order_id = o.broker_order_id;
    reason = o.reason;
    created_at = o.created_at;
    approved_at = o.approved_at;
  }

  -- `Order.model_validate(orm)`
  unfoldable pub order_of_row : OrderOrm F → Option (Order F)
  order_of_row r = maybe (parse_side r.side) none λ side.
      maybe (parse_type r.order_type) none λ order_type.
        maybe (parse_status r.status) none λ status. some (record {
          id = r.id;
          symbol = r.symbol;
          side = side;
          quantity = r.quantity;
          order_type = order_type;
          limit_price = r.limit_price;
          status = status;
          broker_order_id = r.broker_order_id;
          reason = r.reason;
          created_at = r.created_at;
          approved_at = r.approved_at;
        })

parse-side_value : (s : OrderSide) → parse_side (side_value s) ≡ some s
unfolding parse_side
parse-side_value OrderSide.buy = refl
parse-side_value OrderSide.sell = refl

parse-type_value : (t : OrderType) → parse_type (type_value t) ≡ some t
unfolding parse_type
parse-type_value OrderType.market = refl
parse-type_value OrderType.limit = refl

parse-status_value : (s : OrderStatus) → parse_status (status_value s) ≡ some s
unfolding parse_status
parse-status_value OrderStatus.pending = refl
parse-status_value OrderStatus.approved = refl
parse-status_value OrderStatus.submitted = refl
parse-status_value OrderStatus.filled = refl
parse-status_value OrderStatus.rejected = refl
parse-status_value OrderStatus.cancelled = refl

-- A saved order is read back whole.
pub order_of_row-order_row : {F : Type 0} (o : Order F) → order_of_row (order_row o) ≡ some o
unfolding order_row order_of_row
order_of_row-order_row o = simp (parse-side_value, parse-type_value, parse-status_value)
