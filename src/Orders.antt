-- ===== src/Orders.antt =====
-- The gated order path: src/quant_pilot/api/routers/orders.py, the kill switch endpoints of
-- api/routers/system.py, and the dependencies of api/security/auth.py. A handler takes the server's
-- world and returns it with its response, where every write reaches the database; `in_transaction`
-- puts it in the session of the request (db/session.py), whose writes may also fail. The broker of
-- the process is the `PaperBroker`, which no rollback reaches.
pub mod Gates
pub mod Proposing
pub mod Approving
pub mod Path
pub mod Rollback
pub mod Resting
mod Tests
use quant_pilot.Base.{
  ℕ, String, ◌≡◌, Bool, true, false, not, ◌&&◌, ◌||◌, Option, none, some, str_eq, maybe,
  if◌then◌else◌,
}
use quant_pilot.Base.Int.{ℤ, pos, leb_ℤ}
use quant_pilot.Domain.{
  Order, OrderSide, OrderStatus, OrderType, Reason, AuditEvent, pending, status_value,
}
use quant_pilot.Float.{Float}
use quant_pilot.PaperBroker
use quant_pilot.PaperBroker.{PaperBroker, place_order, is_pending}
use quant_pilot.Repository.{Table, save_order, get_order, append_audit}
use quant_pilot.Repository.Rows.{OrderOrm}

-- `OrderCreate` (api/schemas/orders.py)
pub record OrderCreate (F : Type 0) : Type 0 where
  pub symbol : String
  pub side : OrderSide
  pub quantity : ℤ
  pub order_type : OrderType
  pub limit_price : Option F

-- The `payload` of an audit event.
pub data Payload (F : Type 0) : Type 0 where
  no_payload : Payload F
  proposal : OrderCreate F → Payload F
  placement : Option String → Option (Reason F) → Payload F

-- The action of an audit event; `order_status` is `f"order.{status.value}"`.
abbrev pub order_status : OrderStatus → String
order_status OrderStatus.pending = "order.pending"
order_status OrderStatus.approved = "order.approved"
order_status OrderStatus.submitted = "order.submitted"
order_status OrderStatus.filled = "order.filled"
order_status OrderStatus.rejected = "order.rejected"
order_status OrderStatus.cancelled = "order.cancelled"

-- What a request brings, with the identifiers and the time that are drawn while it is handled.
pub record Request : Type 0 where
  pub x_totp : Option String
  pub ip : Option String
  pub order_id : String
  pub audit_id : String
  pub broker_order_id : String
  pub now : ℕ

-- The setting `trading_enabled`, the stored 2FA secret, and `pyotp.TOTP(secret).verify(code)`.
pub record Server : Type 0 where
  pub trading_enabled : Bool
  pub secret : Option String
  pub verify : String → String → Bool

pub data Response (A : Type 0) : Type 0 where
  ok : A → Response A
  http_error : ℕ → Response A

-- A dependency returns nothing, or raises with a status.
abbrev pub require_trading_enabled : Server → Option ℕ
require_trading_enabled server = if server.trading_enabled then none else some 403

-- `not text` on a text that may be missing
abbrev pub is_blank : Option String → Bool
is_blank none = true
is_blank (some s) = str_eq s ""

abbrev pub code_valid : Server → String → Option String → Bool
code_valid server secret none = false
code_valid server secret (some code) = not (str_eq code "") && server.verify secret code

unfoldable pub verify_totp : Server → Request → Option ℕ
verify_totp server request = maybe server.secret (some 503) λ secret.
    if str_eq secret ""
    then some 503
    else if code_valid server secret request.x_totp
    then none
    else some 403

-- The dependencies of a route, in order.
abbrev pub first_error : Option ℕ → Option ℕ → Option ℕ
first_error (some e) r = some e
first_error none r = r

-- `Depends(require_trading_enabled), Depends(verify_totp)`
abbrev pub gates : Server → Request → Option ℕ
gates server request = first_error (require_trading_enabled server) (verify_totp server request)

pub record World (F S A : Type 0) : Type 0 where
  pub orders : S
  pub audit : A
  pub broker : PaperBroker F

-- The end of the session of `get_db`, whose writes and commit got through, or one of them raised: an
-- error, of the handler or of the database, rolls back the tables.
unfoldable pub end_session :
    {F S A B : Type 0} → Bool → World F S A → World F S A × Response B → World F S A × Response B
end_session true w (w', ok r) = (w', ok r)
end_session false w (w', ok r) = (record w { broker = w'.broker }, http_error 500)
end_session _ w (w', http_error e) = (record w { broker = w'.broker }, http_error e)

-- A handler in its session.
abbrev pub in_transaction :
    {F S A B : Type 0}
    → Bool
    → (World F S A → World F S A × Response B)
    → World F S A
    → World F S A × Response B
in_transaction stored handler w = end_session stored w (handler w)

module _ {F S A : Type 0} ⦃d : Float F⦄ (orders : Table (OrderOrm F) S)
    (audit : Table (AuditEvent (Payload F)) A) where
  -- `_audit`
  abbrev pub audit_order : Request → String → String → Payload F → A → A
  audit_order request action order_id payload = append_audit audit (record {
    id = request.audit_id;
    ts = request.now;
    actor = "local-user";
    action = action;
    resource_type = some "order";
    resource_id = some order_id;
    payload = payload;
    ip = request.ip;
  })

  abbrev pub audit_system : Request → String → A → A
  audit_system request action = append_audit audit (record {
    id = request.audit_id;
    ts = request.now;
    actor = "local-user";
    action = action;
    resource_type = some "system";
    resource_id = none;
    payload = no_payload;
    ip = request.ip;
  })

  abbrev pub new_order : Request → OrderCreate F → Order F
  new_order request body = record {
    id = request.order_id;
    symbol = body.symbol;
    side = body.side;
    quantity = body.quantity;
    order_type = body.order_type;
    limit_price = body.limit_price;
    status = pending;
    broker_order_id = none;
    reason = none;
    created_at = request.now;
    approved_at = none;
  }

  unfoldable pub propose_order :
      Server → Request → OrderCreate F → World F S A → World F S A × Response (Order F)
  propose_order server request body w =
      maybe (require_trading_enabled server)
        (if leb_ℤ body.quantity (pos 0)
          then (w, http_error 422)
          else (let order = new_order request body in
              (
                record w {
                  orders = save_order orders order w.orders;
                  audit = audit_order request "order.proposed" order.id (proposal body) w.audit;
                },
                ok order,
              )))
        (λ e. (w, http_error e))

  -- `approve_order` once the order is found and pending.
  unfoldable pub place_approved :
      Request → String → Order F → World F S A → World F S A × Response (Order F)
  place_approved request order_id order w =
      let (broker, result) = place_order w.broker request.broker_order_id order in
      (
        record w {
          orders = save_order orders result w.orders;
          audit =
              audit_order request (order_status result.status) order_id
                (placement result.broker_order_id result.reason) w.audit;
          broker = broker;
        },
        ok result,
      )

  unfoldable pub approve_order :
      Server → Request → String → World F S A → World F S A × Response (Order F)
  approve_order server request order_id w =
      maybe (gates server request)
        (maybe (get_order orders order_id w.orders) (w, http_error 404)
          λ row.
            maybe row (w, http_error 500)
              λ order.
                if is_pending order.status
                then place_approved request order_id order w
                else (w, http_error 409))
        (λ e. (w, http_error e))

  -- The route `GET /orders/{order_id}`.
  unfoldable pub read_order : String → World F S A → Response (Order F)
  read_order order_id w =
      maybe (get_order orders order_id w.orders) (http_error 404)
        λ row. maybe row (http_error 500) ok

  -- `POST /system/halt`, with no gate
  unfoldable pub halt_trading : Request → World F S A → World F S A × Response Bool
  halt_trading request w = (
    record w {
      broker = PaperBroker.halt w.broker;
      audit = audit_system request "system.halt" w.audit;
    },
    ok true,
  )

  unfoldable pub resume_trading : Server → Request → World F S A → World F S A × Response Bool
  resume_trading server request w =
      maybe (gates server request)
        (
          record w {
            broker = PaperBroker.resume w.broker;
            audit = audit_system request "system.resume" w.audit;
          },
          ok false,
        )
        (λ e. (w, http_error e))
