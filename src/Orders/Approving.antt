-- ===== src/Orders/Approving.antt =====
-- Approving an order.
use quant_pilot.Base.{
  String, ◌≡◌, refl, ap, ◌∙◌, str_eq, true, false, none, some, arith, if◌then◌else◌, eq_iff,
}
use quant_pilot.Domain.{Order, AuditEvent, rejected, trading_halted}
use quant_pilot.Float.{Float}
use quant_pilot.PaperBroker
use quant_pilot.PaperBroker.{place_order, is_pending}
use quant_pilot.PaperBroker.Halt.{place_order_halted}
use quant_pilot.PaperBroker.Lifecycle.Placing.{place_order-Works}
use quant_pilot.Repository.{Table, IsTable, get_order}
use quant_pilot.Repository.Rows.{OrderOrm}
use quant_pilot.Repository.Storage.{get_order-save_order}
use quant_pilot.Orders.{
  Payload, Request, Server, ok, http_error, World, gates, approve_order, place_approved, read_order,
  audit_order, order_status, placement, halt_trading,
}

module _ {F S A : Type 0} ⦃d : Float F⦄ (orders : Table (OrderOrm F) S)
    (audit : Table (AuditEvent (Payload F)) A) (laws : IsTable orders) where
  pub approve_order-placed :
      (server : Server) (request : Request) (k : String) (o : Order F) (w : World F S A)
      → gates server request ≡ none
      → get_order orders k w.orders ≡ some (some o)
      → is_pending o.status ≡ true
      → approve_order orders audit server request k w ≡ place_approved orders audit request k o w
  unfolding approve_order
  approve_order-placed server request k o w open_gates found waiting = ground arith

  pub id_kept :
      (w : World F S A) (uuid : String) (o : Order F) → (place_order w.broker uuid o).1.id ≡ o.id
  id_kept w uuid o = (place_order-Works w.broker uuid o).0.id_kept

  -- With the gates passed, approving a stored order that is pending places it with the broker: the
  -- response is the broker's order, which is what is then read back; every other order reads as
  -- before, and one audit event names the outcome. The order is stored under its own id.
  approve_order_lem :
      (server : Server) (request : Request) (o : Order F) (w : World F S A)
      → gates server request ≡ none
      → get_order orders o.id w.orders ≡ some (some o)
      → is_pending o.status ≡ true
      → let (w', response) = approve_order orders audit server request o.id w in
        let (broker', r) = place_order w.broker request.broker_order_id o in
        (response ≡ ok r)
        × (w'.broker ≡ broker')
        × ((k : String)
            → read_order orders audit k w'
              ≡ (if str_eq o.id k then ok r else read_order orders audit k w))
        × (w'.audit
            ≡ audit_order orders audit request
                (order_status r.status)
                o.id
                (placement r.broker_order_id r.reason)
                w.audit)
  approve_order_lem server request o w open_gates found waiting =
      let r = (place_order w.broker request.broker_order_id o).1 in
      let e = id_kept w request.broker_order_id o in
      rw (approve_order-placed server request o.id o w open_gates found waiting) (
        unfold place_approved read_order in
        (refl, refl, λ k. ground (arith, get_order-save_order orders laws r w.orders k), refl))

  pub get_order-approved :
      (server : Server) (request : Request) (o : Order F) (w : World F S A)
      → gates server request ≡ none
      → get_order orders o.id w.orders ≡ some (some o)
      → is_pending o.status ≡ true
      → get_order orders o.id (approve_order orders audit server request o.id w).0.orders
        ≡ some (some (place_order w.broker request.broker_order_id o).1)
  get_order-approved server request o w open_gates found waiting =
      let r = (place_order w.broker request.broker_order_id o).1 in
      let e = id_kept w request.broker_order_id o in
      rw (approve_order-placed server request o.id o w open_gates found waiting) (
        unfold place_approved in
        ground (arith, get_order-save_order orders laws r w.orders o.id, eq_iff r.id o.id))

  approve_order-conflict :
      (server : Server) (request : Request) (k : String) (r : Order F) (w : World F S A)
      → gates server request ≡ none
      → get_order orders k w.orders ≡ some (some r)
      → is_pending r.status ≡ false
      → approve_order orders audit server request k w ≡ (w, http_error 409)
  unfolding approve_order
  approve_order-conflict server request k r w open_gates found closed = ground arith

  -- An order that the broker has filled or rejected on approval is done: approving it again is
  -- refused with a conflict and changes nothing.
  pub approve_order-once :
      (server : Server) (request later : Request) (o : Order F) (w : World F S A)
      → gates server request ≡ none
      → gates server later ≡ none
      → get_order orders o.id w.orders ≡ some (some o)
      → is_pending o.status ≡ true
      → is_pending (place_order w.broker request.broker_order_id o).1.status ≡ false
      → let w' = (approve_order orders audit server request o.id w).0 in
        approve_order orders audit server later o.id w' ≡ (w', http_error 409)
  approve_order-once server request later o w open_gates open_later found waiting closed =
      let r = (place_order w.broker request.broker_order_id o).1 in
      let w' = (approve_order orders audit server request o.id w).0 in
      approve_order-conflict server later o.id r w' open_later
        (get_order-approved server request o w open_gates found waiting) closed

  -- Once the kill switch endpoint has been called, every approval that passes the gates ends with a
  -- rejected order, and moves neither cash nor positions.
  pub approve_order-halted :
      (server : Server) (halting request : Request) (o : Order F) (w : World F S A)
      → gates server request ≡ none
      → get_order orders o.id w.orders ≡ some (some o)
      → is_pending o.status ≡ true
      → let w' = (halt_trading orders audit halting w).0 in
        let (w'', response) = approve_order orders audit server request o.id w' in
        ((r : Order F) × (response ≡ ok r)
          × (r.status ≡ rejected)
          × (r.reason ≡ some trading_halted))
        × (w''.broker.cash ≡ w.broker.cash)
        × (w''.broker.positions ≡ w.broker.positions)
  approve_order-halted server halting request o w open_gates found waiting =
      let w' = (halt_trading orders audit halting w).0 in
      let halted : w'.broker.halted ≡ true = unfold halt_trading PaperBroker.halt in refl in
      let same_cash : w'.broker.cash ≡ w.broker.cash =
        unfold halt_trading PaperBroker.halt in refl in
      let same_positions : w'.broker.positions ≡ w.broker.positions =
        unfold halt_trading PaperBroker.halt in refl in
      let same_orders : w'.orders ≡ w.orders = unfold halt_trading in refl in
      let (status, reason, _, cash, positions, _) =
        place_order_halted w'.broker request.broker_order_id o halted in
      rw
        (approve_order-placed server request o.id o w' open_gates
          (ap (get_order orders o.id) same_orders ∙ found) waiting)
        (unfold place_approved in
          ((_, refl, status, reason), cash ∙ same_cash, positions ∙ same_positions))
