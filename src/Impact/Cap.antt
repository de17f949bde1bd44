-- ===== src/Impact/Cap.antt =====
-- The participation cap.
use quant_pilot.Base.{◌≡◌, true, arith}
use quant_pilot.Float.{Float, IsOrdered, HasSigns, IsNumber, IsFinite, ◌*◌, abs, nought, le, lt}
use quant_pilot.Impact.{cap_quantity}

module _ {F : Type 0} ⦃d : Float F⦄ (order : IsOrdered F) (signs : HasSigns F) where
  cap_quantity-le_desired :
      (q adv p : F)
      → IsNumber q
      → le nought (p * adv) ≡ true
      → le (abs (cap_quantity q adv p)) (abs q) ≡ true
  unfolding cap_quantity
  cap_quantity-le_desired q adv p num h = ground (
    arith,
    signs.abs_number q num,
    signs.abs_nonneg q num,
    signs.abs-copysign (p * adv) q,
    signs.abs-copysign (abs q) q,
    signs.abs-le_of_nonneg (p * adv) h,
    signs.abs-le_of_nonneg (abs q),
    order.le_of_lt (p * adv) (abs q),
    order.le_trans (abs (p * adv)) (p * adv) (abs q),
  )

  cap_quantity-le_cap :
      (q adv p : F)
      → IsNumber q
      → IsFinite adv
      → lt nought adv ≡ true
      → le nought (p * adv) ≡ true
      → le (abs (cap_quantity q adv p)) (p * adv) ≡ true
  unfolding cap_quantity
  cap_quantity-le_cap q adv p num fin pos h = ground (
    arith,
    signs.abs_number q num,
    signs.abs_nonneg q num,
    signs.abs-copysign (p * adv) q,
    signs.abs-copysign (abs q) q,
    signs.abs-le_of_nonneg (p * adv) h,
    signs.abs-le_of_nonneg (abs q),
    (order.numbers_of_le nought (p * adv) h).1,
    order.finite_number nought order.nought_finite,
    order.finite_number adv fin,
    order.lt-not_le nought adv,
    order.eq-le_le adv nought,
    order.lt-not_le (p * adv) (abs q),
    order.le_trans (abs (abs q)) (abs q) (p * adv),
  )

  -- With a finite and positive volume a capped order is no larger than the desired one, and at most
  -- the given share of the volume. The desired quantity is a number, and the share of the volume is
  -- zero or more.
  pub cap_quantity_bounds :
      (q adv p : F)
      → IsNumber q
      → le nought (p * adv) ≡ true
      → IsFinite adv
      → lt nought adv ≡ true
      → (le (abs (cap_quantity q adv p)) (abs q) ≡ true)
        × (le (abs (cap_quantity q adv p)) (p * adv) ≡ true)
  cap_quantity_bounds q adv p num h fin pos =
      (cap_quantity-le_desired q adv p num h, cap_quantity-le_cap q adv p num fin pos h)
