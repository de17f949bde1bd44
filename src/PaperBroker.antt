-- ===== src/PaperBroker.antt =====
-- src/quant_pilot/adapters/broker/paper_broker.py: `class PaperBroker`, method by method. A method
-- takes the broker and returns the new one with its result. `uuid4().hex` is an argument. Python
-- stores and returns one `Order` object; here it is a value, so what a caller would do to the
-- returned object later is not seen by the broker.
pub mod Frame
pub mod Halt
pub mod Lifecycle
pub mod Trading
pub mod Samples
mod Tests
use quant_pilot.Base.{
  String, Bool, true, false, not, ◌&&◌, ◌||◌, Option, none, some, List, [], ◌∷◌, maybe,
  if◌then◌else◌,
}
use quant_pilot.Base.Int.{ℤ}
use quant_pilot.Base.Dict.{Dict, lookup, insert, remove, update, values}
use quant_pilot.Domain.{
  Order, OrderSide, OrderStatus, OrderType, Position, MarginInfo, Reason, trading_halted,
  no_market_price, insufficient_buying_power, filled_at,
}
use quant_pilot.Float.{
  Float, ◌+◌, ◌-◌, ◌*◌, ◌/◌, abs, negate, nought, one, of_int, lt, le, eq, truthy,
}
use quant_pilot.Costs.{CostConfig, Segment, compute_costs, is_buy}
use quant_pilot.Impact.{ImpactConfig, compute_impact}

pub record PaperBroker (F : Type 0) : Type 0 where
  pub cash : F
  pub cost : CostConfig F
  pub impact : ImpactConfig F
  -- symbol -> [shares, avg_price]
  pub positions : Dict (F × F)
  pub orders : Dict (Order F)
  pub marks : Dict F
  pub halted : Bool

-- What `modify_order` and `cancel_order` return or raise.
pub data Outcome (A : Type 0) : Type 0 where
  ok : A → Outcome A
  key_error value_error : Outcome A

abbrev pub is_limit : OrderType → Bool
is_limit OrderType.limit = true
is_limit OrderType.market = false

abbrev pub is_pending : OrderStatus → Bool
is_pending OrderStatus.pending = true
is_pending _ = false

-- The keyword arguments that `modify_order` reads, where they are given. The new limit price may
-- itself be `None`.
pub record Changes (F : Type 0) : Type 0 where
  pub quantity : Option ℤ
  pub limit_price : Option (Option F)

-- `a == b` on the truth values of two comparisons
abbrev same_sign : Bool → Bool → Bool
same_sign true b = b
same_sign false b = not b

module _ {F : Type 0} ⦃d : Float F⦄ where
  -- `PaperBroker.__init__`
  unfoldable pub init : F → CostConfig F → ImpactConfig F → PaperBroker F
  init initial_cash cost impact = record {
    cash = initial_cash;
    cost = cost;
    impact = impact;
    positions = [];
    orders = [];
    marks = [];
    halted = false;
  }

  unfoldable pub halt : PaperBroker F → PaperBroker F
  halt b = record b { halted = true }

  unfoldable pub resume : PaperBroker F → PaperBroker F
  resume b = record b { halted = false }

  -- `_marketable`; a missing limit price is marketable.
  unfoldable pub marketable : Order F → F → Bool
  marketable o mark = elim o.limit_price [
    | none ↦ true
    | some limit ↦ (is_buy o.side && le mark limit) || (not (is_buy o.side) && le limit mark)
  ]

  -- `_reject`
  unfoldable pub reject : PaperBroker F → Order F → Reason F → PaperBroker F × Order F
  reject b o reason =
      let o' : Order F = record o { status = OrderStatus.rejected; reason = some reason } in
      (record b { orders = insert o.id o' b.orders }, o')

  -- `self._positions.get(symbol, [0.0, 0.0])`
  unfoldable pub position_or : Option (F × F) → F × F
  position_or none = (nought, nought)
  position_or (some p) = p

  -- The average price after a trade, of what was held, what is traded and what is held then.
  unfoldable pub average_price : F → F → F → F → F → F
  average_price shares avg signed_qty price new_shares =
      if eq shares nought || same_sign (lt nought shares) (lt nought signed_qty)
      then (if truthy new_shares
          then (avg * abs shares + price * abs signed_qty) / abs new_shares
          else nought)
      else if lt (abs shares) (abs signed_qty)
      then price
      else avg

  -- The write or the removal that ends `_apply_position`.
  unfoldable pub keep_position : Dict (F × F) → String → F → F → Dict (F × F)
  keep_position positions symbol new_shares avg =
      if eq new_shares nought
      then remove symbol positions
      else insert symbol (new_shares, avg) positions

  -- `_apply_position`
  unfoldable pub apply_position : Dict (F × F) → String → F → F → Dict (F × F)
  apply_position positions symbol signed_qty price =
      let (shares, avg) = position_or (lookup symbol positions) in
      let new_shares = shares + signed_qty in
      keep_position positions symbol new_shares
        (average_price shares avg signed_qty price new_shares)

  -- The price of a fill: the mark, worsened by the impact fraction.
  unfoldable pub fill_price : PaperBroker F → Order F → F → F
  fill_price b o mark =
      let frac =
        (compute_impact (of_int o.quantity) mark nought nought b.impact none).impact_fraction in
      if is_buy o.side then mark * (one + frac) else mark * (one - frac)

  unfoldable pub fill_cost : PaperBroker F → Order F → F → F
  fill_cost b o price =
      (compute_costs o.side price (of_int o.quantity) b.cost Segment.delivery).total

  -- The order once filled, and the broker that keeps it.
  unfoldable pub book_fill : PaperBroker F → Order F → F → F → F → F → PaperBroker F × Order F
  book_fill b o price cost cash signed_qty =
      let o' : Order F = record o {
        status = OrderStatus.filled;
        reason = some (filled_at o.quantity price cost);
      } in
      (
        record b {
          cash = cash;
          positions = apply_position b.positions o.symbol signed_qty price;
          orders = insert o.id o' b.orders;
        },
        o',
      )

  -- `_fill`
  unfoldable pub fill : PaperBroker F → Order F → F → PaperBroker F × Order F
  fill b o mark =
      let price = fill_price b o mark in
      let cost = fill_cost b o price in
      let notional = price * of_int o.quantity in
      if is_buy o.side
      then (if lt b.cash (notional + cost)
          then reject b o insufficient_buying_power
          else book_fill b o price cost (b.cash - (notional + cost)) (of_int o.quantity))
      else book_fill b o price cost (b.cash + (notional - cost)) (negate (of_int o.quantity))

  -- One round of the loop in `_process_pending`, on an order of the snapshot.
  unfoldable pub process_order : PaperBroker F → Order F → PaperBroker F
  process_order b o =
      if is_pending o.status
      then maybe (lookup o.symbol b.marks) b
          (λ mark. if truthy mark && marketable o mark then (fill b o mark).0 else b)
      else b

  unfoldable pub process_all : PaperBroker F → List (Order F) → PaperBroker F
  process_all b [] = b
  process_all b (o ∷ os) = process_all (process_order b o) os

  -- `_process_pending`, over `list(self._orders.values())`. A fill changes its own order only, so
  -- the snapshot's orders are still the stored ones when their turn comes.
  unfoldable pub process_pending : PaperBroker F → PaperBroker F
  process_pending b = process_all b (values b.orders)

  unfoldable pub set_mark : PaperBroker F → String → F → PaperBroker F
  set_mark b symbol price = process_pending (record b { marks = insert symbol price b.marks })

  unfoldable pub update_marks : PaperBroker F → Dict F → PaperBroker F
  update_marks b prices = process_pending (record b { marks = update b.marks prices })

  -- `place_order` once a mark is found, on the copy that has its broker id.
  unfoldable pub place_at : PaperBroker F → Order F → F → PaperBroker F × Order F
  place_at b o mark =
      if le mark nought
      then reject b o no_market_price
      else if is_limit o.order_type && not (marketable o mark)
      then (let o' : Order F = record o { status = OrderStatus.pending } in
          (record b { orders = insert o.id o' b.orders }, o'))
      else fill b o mark

  -- The copy of the order that the broker works on.
  abbrev pub with_broker_id : String → Order F → Order F
  with_broker_id uuid order = record order { broker_order_id = some uuid }

  unfoldable pub place_order : PaperBroker F → String → Order F → PaperBroker F × Order F
  place_order b uuid order =
      let o = with_broker_id uuid order in
      if b.halted
      then reject b o trading_halted
      else maybe (lookup o.symbol b.marks) (reject b o no_market_price) (place_at b o)

  -- The stored order with the changes written to it.
  unfoldable pub with_changes : Order F → Changes F → Order F
  with_changes o changes = record o {
    quantity = maybe changes.quantity o.quantity λ q. q;
    limit_price = maybe changes.limit_price o.limit_price λ p. p;
  }

  -- `modify_order` on the changed order, which is the stored object.
  unfoldable pub fill_if_marketable : PaperBroker F → Order F → PaperBroker F × Order F
  fill_if_marketable b o =
      maybe (lookup o.symbol b.marks) (b, o)
        λ mark. if truthy mark && marketable o mark then fill b o mark else (b, o)

  unfoldable pub modify_order :
      PaperBroker F → String → Changes F → PaperBroker F × Outcome (Order F)
  modify_order b order_id changes =
      maybe (lookup order_id b.orders) (b, key_error)
        λ o.
          if is_pending o.status
          then (let o' = with_changes o changes in
              let (b', r) =
                fill_if_marketable (record b { orders = insert order_id o' b.orders }) o' in
              (b', ok r))
          else (b, value_error)

  unfoldable pub cancel_order : PaperBroker F → String → PaperBroker F × Outcome (Order F)
  cancel_order b order_id =
      maybe (lookup order_id b.orders) (b, key_error)
        λ o.
          if is_pending o.status
          then (let o' : Order F = record o { status = OrderStatus.cancelled } in
              (record b { orders = insert order_id o' b.orders }, ok o'))
          else (b, ok o)

  unfoldable pub get_orders : PaperBroker F → List (Order F)
  get_orders b = values b.orders

  -- `get_positions`; `none` is what `int(shares)` raises at NaN or an infinity.
  unfoldable pub positions_from : Dict F → Dict (F × F) → Option (List (Position F))
  positions_from marks [] = some []
  positions_from marks ((sym, (shares, avg)) ∷ ps) = maybe (d.to_int shares) none λ q.
      maybe (positions_from marks ps) none λ rest. some (
        record { symbol = sym; quantity = q; avg_price = avg; last_price = lookup sym marks }
        ∷ rest)

  unfoldable pub get_positions : PaperBroker F → Option (List (Position F))
  get_positions b = positions_from b.marks b.positions

  -- The sum of `get_margin`, from the left, as Python's `sum` adds.
  unfoldable pub used_margin : F → Dict F → Dict (F × F) → F
  used_margin total marks [] = total
  used_margin total marks ((sym, (sh, avg)) ∷ ps) =
      used_margin (total + abs sh * maybe (lookup sym marks) avg (λ m. m)) marks ps

  unfoldable pub get_margin : PaperBroker F → MarginInfo F
  get_margin b =
      let used = used_margin nought b.marks b.positions in
      record { available = b.cash; used = used; total = b.cash + used }
