-- ===== src/Orders/Resting.antt =====
-- What becomes of an order that rests at the broker. The API saves the order as the broker returned
-- it, pending, and no code brings a later fill back into the repository.
use quant_pilot.Base.{◌≡◌, refl, true, none, some, if◌then◌else◌}
use quant_pilot.Domain.{Order, AuditEvent, filled}
use quant_pilot.Float.{Float, of_int, negate}
use quant_pilot.Costs.{is_buy}
use quant_pilot.PaperBroker.{
  PaperBroker, place_order, is_pending, with_broker_id, apply_position, fill_price,
}
use quant_pilot.PaperBroker.Trading.{place_order-Accounts}
use quant_pilot.Repository.{Table, IsTable, get_order}
use quant_pilot.Repository.Rows.{OrderOrm}
use quant_pilot.Orders.{Payload, Request, Server, ok, World, gates, approve_order, place_approved}
use quant_pilot.Orders.Approving.{get_order-approved, approve_order-placed}

module _ {F S A : Type 0} ⦃d : Float F⦄ (orders : Table (OrderOrm F) S)
    (audit : Table (AuditEvent (Payload F)) A) (laws : IsTable orders) where
  -- An order that rests after its approval passes the approval again, whatever the broker has done
  -- with it since: for any later state of the broker, also one that has filled the order, a second
  -- approval places it once more, and where that placement is filled the position moves again by
  -- the full quantity.
  pub resting_order_placed_again :
      (server : Server) (first second : Request) (o : Order F) (w : World F S A)
      → (b : PaperBroker F) → gates server first ≡ none
      → gates server second ≡ none
      → get_order orders o.id w.orders ≡ some (some o)
      → is_pending o.status ≡ true
      → is_pending (place_order w.broker first.broker_order_id o).1.status ≡ true
      → (place_order b second.broker_order_id
          (place_order w.broker first.broker_order_id o).1).1.status
        ≡ filled
      → let r = (place_order w.broker first.broker_order_id o).1 in
        let w' = (approve_order orders audit server first o.id w).0 in
        let (w'', response) =
          approve_order orders audit server second o.id (record w' { broker = b }) in
        (response ≡ ok (place_order b second.broker_order_id r).1)
        × ((price : F) × (w''.broker.positions
              ≡ apply_position b.positions r.symbol
                  (if is_buy r.side then of_int r.quantity else negate (of_int r.quantity))
                  price))
  resting_order_placed_again server first second o w b open_gates open_second found waiting rests
        done =
      let r = (place_order w.broker first.broker_order_id o).1 in
      let w' = (approve_order orders audit server first o.id w).0 in
      let again =
        approve_order-placed orders audit laws server second o.id r (record w' { broker = b })
          open_second
          (get_order-approved orders audit laws server first o w open_gates found waiting) rests in
      let (_, (mark, _, _, _, books)) = place_order-Accounts b second.broker_order_id r done in
      rw again (
        unfold place_approved in
        (refl, (fill_price b (with_broker_id second.broker_order_id r) mark, books.shares_moved)))
