-- ===== src/Orders/Proposing.antt =====
-- Proposing an order.
use quant_pilot.Base.{String, ◌≡◌, refl, str_eq, true, false, arith, if◌then◌else◌}
use quant_pilot.Base.Int.{leb_ℤ, pos}
use quant_pilot.Domain.{AuditEvent, pending}
use quant_pilot.Float.{Float}
use quant_pilot.Repository.{Table, IsTable}
use quant_pilot.Repository.Rows.{OrderOrm}
use quant_pilot.Repository.Storage.{get_order-save_order}
use quant_pilot.Orders.{
  Payload, Request, Server, ok, World, OrderCreate, propose_order, read_order, new_order,
  audit_order, proposal,
}

module _ {F S A : Type 0} ⦃d : Float F⦄ (orders : Table (OrderOrm F) S)
    (audit : Table (AuditEvent (Payload F)) A) (laws : IsTable orders) where
  -- With trading enabled, a proposal of a positive quantity succeeds: the new order is pending and
  -- carries the body, it is what is read back under its id, every other order reads as before, one
  -- audit event with the proposal is appended, and the broker is not touched.
  pub propose_order_lem :
      (server : Server) (request : Request) (body : OrderCreate F) (w : World F S A)
      → server.trading_enabled ≡ true
      → leb_ℤ body.quantity (pos 0) ≡ false
      → let (w', response) = propose_order orders audit server request body w in
        let order = new_order orders audit request body in
        (response ≡ ok order)
        × (order.status ≡ pending)
        × ((k : String)
            → read_order orders audit k w'
              ≡ (if str_eq request.order_id k then ok order else read_order orders audit k w))
        × (w'.audit
            ≡ audit_order orders audit request "order.proposed" request.order_id
                (proposal body)
                w.audit)
        × (w'.broker ≡ w.broker)
  unfolding propose_order read_order
  propose_order_lem server request body w enabled positive =
      let order = new_order orders audit request body in
      (
        ground arith,
        refl,
        λ k. ground (arith, get_order-save_order orders laws order w.orders k),
        ground arith,
        ground arith,
      )
