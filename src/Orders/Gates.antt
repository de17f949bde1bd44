-- ===== src/Orders/Gates.antt =====
-- The gates of the write path: who gets through.
use quant_pilot.Base.{
  refl, ℕ, String, ◌≡◌, ap, ◌∙◌, str_eq, true, false, Option, none, some, arith, maybe-cases,
  if-cases,
}
use quant_pilot.Domain.{Order, AuditEvent}
use quant_pilot.Float.{Float}
use quant_pilot.PaperBroker.{is_pending}
use quant_pilot.Repository.{Table, get_order}
use quant_pilot.Repository.Rows.{OrderOrm}
use quant_pilot.Orders.{
  Payload, Request, Server, Response, ok, World, verify_totp, gates, code_valid, approve_order,
}

-- A 2FA secret that is not empty is stored, and the request brings a code that is not empty and that
-- the one-time password check accepts.
abbrev pub HasCode : Server → Request → Type 0
HasCode server request =
    (secret : String) × (server.secret ≡ some secret)
    × (str_eq secret "" ≡ false)
    × ((code : String) × (request.x_totp ≡ some code)
        × (str_eq code "" ≡ false)
        × (server.verify secret code ≡ true))

-- Trading is enabled, and the request has a code for a stored 2FA secret.
pub record IsAuthorized (server : Server) (request : Request) : Type 0 where
  pub enabled : server.trading_enabled ≡ true
  pub provisioned : HasCode server request

abbrev Passes : Server → Request → Option ℕ → Type 0
Passes server request r = r ≡ none → HasCode server request

code_valid-Accepts :
    (server : Server) (secret : String) (x_totp : Option String)
    → code_valid server secret x_totp ≡ true
    → (code : String) × (x_totp ≡ some code)
      × (str_eq code "" ≡ false)
      × (server.verify secret code ≡ true)
code_valid-Accepts server secret none valid = absurd (ground (arith, valid))
code_valid-Accepts server secret (some code) valid =
    (code, refl, ground (arith, valid), ground (arith, valid))

verify_totp-IsAuthorized :
    (server : Server) (request : Request) → Passes server request (verify_totp server request)
unfolding verify_totp
verify_totp-IsAuthorized server request =
    maybe-cases (Passes server request) server.secret (λ _ h. cc)
      λ secret e.
        if-cases (Passes server request) (str_eq secret "") (λ _ h. cc)
          λ provisioned.
            if-cases (Passes server request) (code_valid server secret request.x_totp)
              (λ valid h.
                (secret, e, provisioned, code_valid-Accepts server secret request.x_totp valid))
              (λ _ h. cc)

pub gates-IsAuthorized :
    (server : Server) (request : Request)
    → gates server request ≡ none
    → IsAuthorized server request
gates-IsAuthorized server request h = record {
  enabled = ground arith;
  provisioned = verify_totp-IsAuthorized server request (ground arith);
}

module _ {F S A : Type 0} ⦃d : Float F⦄ (orders : Table (OrderOrm F) S)
    (audit : Table (AuditEvent (Payload F)) A) where
  -- What an approval rests on.
  abbrev Approved :
      Server → Request → String → World F S A → World F S A × Response (Order F) → Type 0
  Approved server request order_id w p =
      (r : Order F)
      → p.1 ≡ ok r
      → IsAuthorized server request
        × ((order : Order F) × (get_order orders order_id w.orders ≡ some (some order))
            × (is_pending order.status ≡ true))

  -- An approval succeeds only with trading enabled, a code that is not empty and that the one-time
  -- password check accepts for a stored 2FA secret that is not empty, and a stored order that is
  -- pending.
  pub approve_order-IsAuthorized :
      (server : Server) (request : Request) (order_id : String) (w : World F S A) (r : Order F)
      → (approve_order orders audit server request order_id w).1 ≡ ok r
      → IsAuthorized server request
        × ((order : Order F) × (get_order orders order_id w.orders ≡ some (some order))
            × (is_pending order.status ≡ true))
  unfolding approve_order
  approve_order-IsAuthorized server request order_id w =
      maybe-cases (Approved server request order_id w) (gates server request)
        (λ gates.
          maybe-cases (Approved server request order_id w) (get_order orders order_id w.orders)
            (λ _ r h. cc)
            λ row found.
              maybe-cases (Approved server request order_id w) row (λ _ r h. cc)
                λ order valid.
                  if-cases (Approved server request order_id w) (is_pending order.status)
                    (λ waiting r h. (
                      gates-IsAuthorized server request gates,
                      (order, found ∙ ap some valid, waiting),
                    ))
                    (λ _ r h. cc))
        (λ e _ r h. cc)
