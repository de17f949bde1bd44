-- ===== src/Orders/Path.antt =====
-- An order from its proposal to its approval, and what the audit log then says.
use Prim.Native.String.{◌++◌ as text_append}
use quant_pilot.Base.{
  String, ◌≡◌, refl, ◌∙◌, str_eq, false, none, some, arith, if◌then◌else◌, eq_iff,
}
use quant_pilot.Base.Int.{leb_ℤ, pos}
use quant_pilot.Domain.{Order, OrderStatus, AuditEvent, pending, status_value}
use quant_pilot.Float.{Float}
use quant_pilot.PaperBroker.{place_order}
use quant_pilot.Repository.{Table, IsTable, get_order, append_audit}
use quant_pilot.Repository.Rows.{OrderOrm}
use quant_pilot.Repository.Storage.{get_order-save_order}
use quant_pilot.Orders.{
  Payload, placement, Request, Server, ok, World, OrderCreate, require_trading_enabled, gates,
  propose_order, approve_order, place_approved, read_order, order_status,
}
use quant_pilot.Orders.Approving.{approve_order-placed, id_kept}

-- The order that a proposal stands for.
abbrev pub proposed : {F : Type 0} → Request → OrderCreate F → Order F
proposed request body = record {
  id = request.order_id;
  symbol = body.symbol;
  side = body.side;
  quantity = body.quantity;
  order_type = body.order_type;
  limit_price = body.limit_price;
  status = pending;
  broker_order_id = none;
  reason = none;
  created_at = request.now;
  approved_at = none;
}

-- What the audit log holds of a request that did something to an order.
abbrev pub order_event :
    {F : Type 0} → Request → String → String → Payload F → AuditEvent (Payload F)
order_event request action order_id payload = record {
  id = request.audit_id;
  ts = request.now;
  actor = "local-user";
  action = text_append "order." action;
  resource_type = some "order";
  resource_id = some order_id;
  payload = payload;
  ip = request.ip;
}

order_status_lem : (s : OrderStatus) → order_status s ≡ text_append "order." (status_value s)
order_status_lem OrderStatus.pending = refl
order_status_lem OrderStatus.approved = refl
order_status_lem OrderStatus.submitted = refl
order_status_lem OrderStatus.filled = refl
order_status_lem OrderStatus.rejected = refl
order_status_lem OrderStatus.cancelled = refl

module _ {F S A : Type 0} ⦃d : Float F⦄ (orders : Table (OrderOrm F) S)
    (audit : Table (AuditEvent (Payload F)) A) (laws : IsTable orders) (kept : IsTable audit) where
  find-append_audit :
      (e : AuditEvent (Payload F)) (s : A) (k : String)
      → audit.find s e.id ≡ none
      → audit.find (append_audit audit e s) k ≡ (if str_eq e.id k then some e else audit.find s k)
  unfolding append_audit
  find-append_audit e s k new = kept.find-add s e.id k e new

  find-append_twice :
      (e e' : AuditEvent (Payload F)) (s : A) (k : String)
      → str_eq e.id e'.id ≡ false
      → audit.find s e.id ≡ none
      → audit.find s e'.id ≡ none
      → audit.find (append_audit audit e' (append_audit audit e s)) k
        ≡ (if str_eq e'.id k then some e' else if str_eq e.id k then some e else audit.find s k)
  find-append_twice e e' s k apart new newer =
      find-append_audit e' (append_audit audit e s) k
        (find-append_audit e s e'.id new ∙ rw apart newer)
      ∙ rw (find-append_audit e s k new) refl

  -- The world after the proposal of a request, with a positive quantity and trading enabled.
  propose_order-stored :
      (server : Server) (request : Request) (body : OrderCreate F) (w : World F S A)
      → require_trading_enabled server ≡ none
      → leb_ℤ body.quantity (pos 0) ≡ false
      → let w' = (propose_order orders audit server request body w).0 in
        (w'.broker ≡ w.broker)
        × ((k : String)
            → get_order orders k w'.orders ≡ (
                if str_eq request.order_id k
                then some (some (proposed request body))
                else get_order orders k w.orders))
        × (w'.audit
            ≡ append_audit audit
                (order_event request "proposed" request.order_id (Payload.proposal body))
                w.audit)
  unfolding propose_order
  propose_order-stored server request body w enabled positive = rw enabled (
      rw positive
        (refl, λ k. get_order-save_order orders laws (proposed request body) w.orders k, refl))

  -- An order that is proposed and then approved, with the gates passed, a positive quantity and two
  -- fresh audit ids: the response is the broker's order for it, which is what is then read under its
  -- id, while every other order reads as before. The audit log has the two events of the order, the
  -- second with the broker's status, id and reason, and is otherwise as before.
  pub approve_order-propose_order :
      (server : Server) (first second : Request) (body : OrderCreate F) (w : World F S A)
      → gates server first ≡ none
      → gates server second ≡ none
      → leb_ℤ body.quantity (pos 0) ≡ false
      → str_eq first.audit_id second.audit_id ≡ false
      → audit.find w.audit first.audit_id ≡ none
      → audit.find w.audit second.audit_id ≡ none
      → let w1 = (propose_order orders audit server first body w).0 in
        let (w2, response) = approve_order orders audit server second first.order_id w1 in
        let (broker', r) = place_order w.broker second.broker_order_id (proposed first body) in
        (response ≡ ok r)
        × (w2.broker ≡ broker')
        × ((k : String)
            → read_order orders audit k w2
              ≡ (if str_eq first.order_id k then ok r else read_order orders audit k w))
        × ((k : String)
            → audit.find w2.audit k ≡ (
                if str_eq second.audit_id k
                then some (
                    order_event second
                      (status_value r.status)
                      first.order_id
                      (placement r.broker_order_id r.reason))
                else if str_eq first.audit_id k
                then some (order_event first "proposed" first.order_id (Payload.proposal body))
                else audit.find w.audit k))
  approve_order-propose_order server first second body w open_first open_second positive apart new
        newer =
      let w1 = (propose_order orders audit server first body w).0 in
      let enabled : require_trading_enabled server ≡ none = ground arith in
      let (broker1, orders1, audit1) = propose_order-stored server first body w enabled positive in
      let o = proposed first body in
      let found : get_order orders o.id w1.orders ≡ some (some o) =
        ground (arith, orders1 o.id, eq_iff o.id o.id) in
      let r = (place_order w.broker second.broker_order_id o).1 in
      let same_id : r.id ≡ first.order_id = id_kept orders audit laws w second.broker_order_id o in
      rw (approve_order-placed orders audit laws server second o.id o w1 open_second found refl) (
        unfold place_approved in
        rw broker1 (
          refl,
          refl,
          λ k.
              unfold read_order in
              ground (arith, get_order-save_order orders laws r w1.orders k, orders1 k),
          λ k. rw audit1 (
              rw (order_status_lem r.status) (
                find-append_twice
                  (order_event first "proposed" first.order_id (Payload.proposal body))
                  (order_event second (status_value r.status) first.order_id
                    (placement r.broker_order_id r.reason))
                  w.audit k apart new newer)),
        ))
