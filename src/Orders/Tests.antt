-- ===== src/Orders/Tests.antt =====
-- The order path over tables in memory: an authorised server, and the broker of PaperBroker/Tests.
use quant_pilot.Base.{String, ◌≡◌, refl, true, false, none, some, [], ◌∷◌, str_eq, if◌then◌else◌}
use quant_pilot.Base.Int.{ℤ, pos, ◌+ℤ◌, ◌-ℤ◌}
use quant_pilot.Base.Dict.{Dict, lookup, insert, remove, values}
use quant_pilot.Domain.{
  Order, AuditEvent, buy, limit, market, rejected, trading_halted, status_value,
}
use quant_pilot.Float.{of_int}
use quant_pilot.Float.Fixed.{fixed}
use quant_pilot.Float.Scaled.{fixed_literal, fixed_mul, fixed_div, fixed_of_int, fixed_sqrt}
use quant_pilot.Costs.{compute_costs, transaction_tax}
use quant_pilot.Impact.{compute_impact}
use quant_pilot.PaperBroker
use quant_pilot.PaperBroker.{
  PaperBroker, is_pending, place_order, place_at, fill, reject, book_fill, fill_price, fill_cost,
  apply_position, keep_position, average_price, position_or, marketable, process_pending,
  process_all, process_order,
}
use quant_pilot.PaperBroker.Samples.{rupees, order, broker}
use quant_pilot.Repository.{get_order, save_order}
use quant_pilot.Repository.Rows.{
  OrderOrm, order_row, order_of_row, parse_side, parse_type, parse_status,
}
use quant_pilot.Repository.InMemory.{in_memory, in_memory-IsTable}
use quant_pilot.Orders.{
  OrderCreate, Payload, Request, Server, ok, World, gates, verify_totp, propose_order,
  approve_order, place_approved, read_order, halt_trading, resume_trading, in_transaction,
  end_session, placement,
}
use quant_pilot.Orders.Gates.{IsAuthorized, approve_order-IsAuthorized}
use quant_pilot.Orders.Approving.{approve_order-halted}
use quant_pilot.Orders.Path.{proposed, order_event, approve_order-propose_order}
use quant_pilot.Orders.Rollback.{Settled, HasPlaced, errors_roll_back}
use quant_pilot.Orders.Resting.{resting_order_placed_again}

abbrev Orders : Type 0
Orders = Dict (OrderOrm ℤ)

abbrev Audit : Type 0
Audit = Dict (AuditEvent (Payload ℤ))

abbrev server : Server
server = record {
  trading_enabled = true;
  secret = some "JBSWY3DP";
  verify = λ secret code. str_eq code "123456";
}

abbrev request : String → Request
request id = record {
  x_totp = some "123456";
  ip = none;
  order_id = id;
  audit_id = id;
  broker_order_id = id;
  now = 1;
}

-- A world that has stored one order, at a broker.
abbrev world : Order ℤ → PaperBroker ℤ → World ℤ Orders Audit
world o b = record { orders = (o.id, order_row o) ∷ []; audit = []; broker = b }

abbrev market_order : Order ℤ
market_order = order "o1" buy 10 market

abbrev limit_order : Order ℤ
limit_order = order "o2" buy 10 limit

abbrev stored_world : World ℤ Orders Audit
stored_world = world market_order broker

gates_open : (gates server (request "a") ≡ none) × (gates server (request "b") ≡ none)
unfolding verify_totp
gates_open = (refl, refl)

stored : get_order in_memory "o1" stored_world.orders ≡ some (some market_order)
unfolding get_order order_row order_of_row parse_side parse_type parse_status lookup
stored = refl

stored_limit : get_order in_memory "o2" (world limit_order broker).orders ≡ some (some limit_order)
unfolding get_order order_row order_of_row parse_side parse_type parse_status lookup
stored_limit = refl

abbrev body : OrderCreate ℤ
body = record {
  symbol = "INFY";
  side = buy;
  quantity = pos 10;
  order_type = market;
  limit_price = none;
}

-- The database fails.
errors_roll_back_example :
    ((b : OrderCreate ℤ)
      → Settled false stored_world
          (λ b'. b' ≡ broker)
          (propose_order in_memory in_memory server (request "a") b stored_world)
          (in_transaction false
            (propose_order in_memory in_memory server (request "a") b)
            stored_world))
    × ((id : String)
        → Settled false stored_world
            (HasPlaced in_memory in_memory (request "a") id stored_world)
            (approve_order in_memory in_memory server (request "a") id stored_world)
            (in_transaction false
              (approve_order in_memory in_memory server (request "a") id)
              stored_world))
    × Settled false stored_world
        (λ b'. b' ≡ PaperBroker.resume broker)
        (resume_trading in_memory in_memory server (request "a") stored_world)
        (in_transaction false
          (resume_trading in_memory in_memory server (request "a"))
          stored_world)
errors_roll_back_example =
    errors_roll_back in_memory in_memory false server (request "a") stored_world

-- The broker has filled the order, and the order can be approved again.
placed_but_pending :
    let w' =
      (in_transaction false
        (approve_order in_memory in_memory server (request "a") "o1")
        stored_world).0 in
    ((position_or (lookup "INFY" w'.broker.positions)).0 ≡ rupees 10)
    × (get_order in_memory "o1" w'.orders ≡ some (some market_order))
unfolding end_session approve_order place_approved verify_totp get_order order_row order_of_row
    parse_side parse_type parse_status place_order place_at fill reject book_fill fill_price
    fill_cost apply_position keep_position average_price position_or compute_costs transaction_tax
    compute_impact marketable lookup insert remove fixed_mul fixed_div fixed_literal fixed_of_int
    fixed_sqrt ◌+ℤ◌ ◌-ℤ◌
placed_but_pending = (refl, refl)

approve_order-IsAuthorized_example :
    IsAuthorized server (request "a")
    × ((o : Order ℤ) × (get_order in_memory "o1" stored_world.orders ≡ some (some o))
        × (is_pending o.status ≡ true))
unfolding approve_order place_approved verify_totp get_order order_row order_of_row parse_side
    parse_type parse_status place_order place_at fill reject book_fill fill_price fill_cost
    apply_position keep_position average_price position_or compute_costs transaction_tax
    compute_impact marketable lookup insert remove fixed_mul fixed_div fixed_literal fixed_of_int
    fixed_sqrt ◌+ℤ◌ ◌-ℤ◌
approve_order-IsAuthorized_example =
    approve_order-IsAuthorized in_memory in_memory server (request "a") "o1" stored_world _ refl

-- A proposal of ten shares, and its approval.
approve_order-propose_order_example :
    let w1 = (propose_order in_memory in_memory server (request "o3") body stored_world).0 in
    let (w2, response) = approve_order in_memory in_memory server (request "b") "o3" w1 in
    let (broker', r) = place_order broker "b" (proposed (request "o3") body) in
    (response ≡ ok r)
    × (w2.broker ≡ broker')
    × ((k : String)
        → read_order in_memory in_memory k w2
          ≡ (if str_eq "o3" k then ok r else read_order in_memory in_memory k stored_world))
    × ((k : String)
        → lookup k w2.audit ≡ (
            if str_eq "b" k
            then some (
                order_event
                  (request "b")
                  (status_value r.status)
                  "o3"
                  (placement r.broker_order_id r.reason))
            else if str_eq "o3" k
            then some (order_event (request "o3") "proposed" "o3" (Payload.proposal body))
            else none))
unfolding lookup verify_totp
approve_order-propose_order_example =
    approve_order-propose_order in_memory in_memory in_memory-IsTable in_memory-IsTable server
      (request "o3") (request "b") body stored_world refl refl refl refl refl refl

approve_order-halted_example :
    let w' = (halt_trading in_memory in_memory (request "h") stored_world).0 in
    let (w'', response) = approve_order in_memory in_memory server (request "a") "o1" w' in
    ((r : Order ℤ) × (response ≡ ok r) × (r.status ≡ rejected) × (r.reason ≡ some trading_halted))
    × (w''.broker.cash ≡ rupees 100_000)
    × (w''.broker.positions ≡ [])
approve_order-halted_example =
    approve_order-halted in_memory in_memory in_memory-IsTable server (request "h") (request "a")
      market_order stored_world gates_open.0 stored refl

-- The broker once it has filled the resting order at a mark of 80.
abbrev later_broker : PaperBroker ℤ
later_broker = PaperBroker.set_mark (place_order broker "a" limit_order).0 "INFY" (rupees 80)

resting_order_placed_again_example :
    let r = (place_order broker "a" limit_order).1 in
    let w' =
      (approve_order in_memory in_memory server (request "a") "o2" (world limit_order broker)).0 in
    let (w'', response) =
      approve_order in_memory in_memory server
        (request "b")
        "o2"
        (record w' { broker = later_broker }) in
    (response ≡ ok (place_order later_broker "b" r).1)
    × ((price : ℤ) × (w''.broker.positions
          ≡ apply_position later_broker.positions "INFY" (of_int (pos 10)) price))
unfolding PaperBroker.set_mark process_pending process_all process_order values approve_order
    place_approved verify_totp get_order order_row order_of_row parse_side parse_type parse_status
    place_order place_at fill reject book_fill fill_price fill_cost apply_position keep_position
    average_price position_or compute_costs transaction_tax compute_impact marketable lookup insert
    remove fixed_mul fixed_div fixed_literal fixed_of_int fixed_sqrt ◌+ℤ◌ ◌-ℤ◌
resting_order_placed_again_example =
    resting_order_placed_again in_memory in_memory in_memory-IsTable server (request "a")
      (request "b") limit_order (world limit_order broker) later_broker gates_open.0 gates_open.1
      stored_limit refl refl refl

-- The one proposal of ten shares has then bought twenty.
filled_twice :
    let again =
      approve_order in_memory in_memory server
        (request "b")
        "o2"
        (record (approve_order in_memory in_memory server
          (request "a")
          "o2"
          (world limit_order broker)).0 { broker = later_broker }) in
    ((position_or (lookup "INFY" later_broker.positions)).0 ≡ rupees 10)
    × ((position_or (lookup "INFY" again.0.broker.positions)).0 ≡ rupees 20)
unfolding PaperBroker.set_mark process_pending process_all process_order values approve_order
    place_approved verify_totp get_order order_row order_of_row parse_side parse_type parse_status
    place_order place_at fill reject book_fill fill_price fill_cost apply_position keep_position
    average_price position_or compute_costs transaction_tax compute_impact marketable lookup insert
    remove fixed_mul fixed_div fixed_literal fixed_of_int fixed_sqrt ◌+ℤ◌ ◌-ℤ◌ save_order
filled_twice = (refl, refl)
