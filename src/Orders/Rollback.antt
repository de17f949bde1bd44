-- ===== src/Orders/Rollback.antt =====
-- The order path in the session of its request, where a write may fail: the rollback covers the
-- tables, and not the broker.
use quant_pilot.Base.{
  String, ◌≡◌, ◌⊎◌, inl, inr, refl, ap, ◌∙◌, Bool, true, false, some, if-cases, maybe-cases,
}
use quant_pilot.Base.Int.{leb_ℤ, pos}
use quant_pilot.Domain.{Order, AuditEvent}
use quant_pilot.Float.{Float}
use quant_pilot.PaperBroker
use quant_pilot.PaperBroker.{PaperBroker, place_order, is_pending}
use quant_pilot.Repository.{Table, get_order}
use quant_pilot.Repository.Rows.{OrderOrm}
use quant_pilot.Orders.{
  Payload, Request, Server, Response, ok, http_error, World, OrderCreate, propose_order,
  approve_order, place_approved, resume_trading, end_session, in_transaction, gates,
  require_trading_enabled,
}

module _ {F S A : Type 0} where
  -- Every write got through, and the outcome is a success, the handler's. Or the tables are as they
  -- were; then the broker is too, or the database failed and the broker is one that was left behind.
  abbrev pub Settled :
      {B : Type 0}
      → Bool
      → World F S A
      → (PaperBroker F → Type 0)
      → World F S A × Response B
      → World F S A × Response B
      → Type 0
  Settled {B} stored w Left handled p =
      ((stored ≡ true) × (p ≡ handled) × ((r : B) × (p.1 ≡ ok r)))
      ⊎ ((p.0.orders ≡ w.orders)
          × (p.0.audit ≡ w.audit)
          × ((p.0.broker ≡ w.broker) ⊎ ((stored ≡ false) × Left p.0.broker)))

  -- A handler that succeeds or changes nothing.
  abbrev Handles :
      {B : Type 0} → World F S A → (PaperBroker F → Type 0) → World F S A × Response B → Type 0
  Handles {B} w Left p = (p.0 ≡ w) ⊎ (((r : B) × (p.1 ≡ ok r)) × Left p.0.broker)

  end_session-Settled :
      {B : Type 0} (stored : Bool) (w : World F S A) (Left : PaperBroker F → Type 0)
      → (p : World F S A × Response B) → Handles w Left p
      → Settled stored w Left p (end_session stored w p)
  unfolding end_session
  end_session-Settled true w Left (w', ok r) h = inl (refl, refl, (r, refl))
  end_session-Settled false w Left (w', ok r) (inl same) =
      inr (refl, refl, inl (ap (λ (v : World F S A). v.broker) same))
  end_session-Settled false w Left (w', ok r) (inr (_, due)) = inr (refl, refl, inr (refl, due))
  end_session-Settled true w Left (w', http_error e) (inl same) =
      inr (refl, refl, inl (ap (λ (v : World F S A). v.broker) same))
  end_session-Settled false w Left (w', http_error e) (inl same) =
      inr (refl, refl, inl (ap (λ (v : World F S A). v.broker) same))
  end_session-Settled stored w Left (w', http_error e) (inr ((r, h), _)) = cc

module _ {F S A : Type 0} ⦃d : Float F⦄ (orders : Table (OrderOrm F) S)
    (audit : Table (AuditEvent (Payload F)) A) where
  -- A broker that has placed the order of an id, while the table has it pending.
  abbrev pub HasPlaced : Request → String → World F S A → PaperBroker F → Type 0
  HasPlaced request order_id w broker =
      (o : Order F) × (get_order orders order_id w.orders ≡ some (some o))
      × (is_pending o.status ≡ true)
      × (broker ≡ (place_order w.broker request.broker_order_id o).0)

  propose_order-Handles :
      (server : Server) (request : Request) (body : OrderCreate F) (w : World F S A)
      → Handles w (λ b. b ≡ w.broker) (propose_order orders audit server request body w)
  unfolding propose_order
  propose_order-Handles server request body w =
      maybe-cases (Handles w (λ b. b ≡ w.broker)) (require_trading_enabled server)
        (λ _.
          if-cases (Handles w (λ b. b ≡ w.broker)) (leb_ℤ body.quantity (pos 0)) (λ _. inl refl)
            (λ _. inr ((_, refl), refl)))
        (λ e _. inl refl)

  approve_order-Handles :
      (server : Server) (request : Request) (order_id : String) (w : World F S A)
      → Handles w
          (HasPlaced request order_id w)
          (approve_order orders audit server request order_id w)
  unfolding approve_order place_approved
  approve_order-Handles server request order_id w =
      let Ends = Handles {B = Order F} w (HasPlaced request order_id w) in
      maybe-cases Ends (gates server request)
        (λ _.
          maybe-cases Ends (get_order orders order_id w.orders) (λ _. inl refl)
            λ row found.
              maybe-cases Ends row (λ _. inl refl)
                λ order valid.
                  if-cases Ends (is_pending order.status)
                    (λ waiting. inr ((_, refl), (order, found ∙ ap some valid, waiting, refl)))
                    (λ _. inl refl))
        (λ e _. inl refl)

  resume_trading-Handles :
      (server : Server) (request : Request) (w : World F S A)
      → Handles w
          (λ b. b ≡ PaperBroker.resume w.broker)
          (resume_trading orders audit server request w)
  unfolding resume_trading
  resume_trading-Handles server request w =
      maybe-cases (Handles w (λ b. b ≡ PaperBroker.resume w.broker)) (gates server request)
        (λ _. inr ((_, refl), refl)) (λ e _. inl refl)

  -- In its session, a request to propose, approve or resume is a success with every write of its
  -- handler, or it leaves the orders and the audit log as they were. In the second case it leaves the
  -- broker as it was too, unless the database failed: an approval can then leave the broker with the
  -- order placed, which the table still has pending, and a resume can leave the broker resumed.
  pub errors_roll_back :
      (stored : Bool) (server : Server) (request : Request) (w : World F S A)
      → ((body : OrderCreate F)
          → Settled stored w
              (λ b. b ≡ w.broker)
              (propose_order orders audit server request body w)
              (in_transaction stored (propose_order orders audit server request body) w))
        × ((order_id : String)
            → Settled stored w
                (HasPlaced request order_id w)
                (approve_order orders audit server request order_id w)
                (in_transaction stored (approve_order orders audit server request order_id) w))
        × Settled stored w
            (λ b. b ≡ PaperBroker.resume w.broker)
            (resume_trading orders audit server request w)
            (in_transaction stored (resume_trading orders audit server request) w)
  errors_roll_back stored server request w = (
    λ body.
        end_session-Settled stored w (λ b. b ≡ w.broker) _
          (propose_order-Handles server request body w),
    λ order_id.
        end_session-Settled stored w (HasPlaced request order_id w) _
          (approve_order-Handles server request order_id w),
    end_session-Settled stored w (λ b. b ≡ PaperBroker.resume w.broker) _
        (resume_trading-Handles server request w),
  )
