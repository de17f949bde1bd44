-- ===== src/Float.antt =====
-- Python's `float`, as the program uses it: a type with the operations of the language and of the
-- module `math`. No rounding is fixed, so the definitions hold for doubles; what a theorem needs of
-- the arithmetic is a law record, and each law is one that IEEE doubles obey (its finiteness
-- conditions are the ones that overflow and NaN ask for). `Float.Scaled` meets all of them.
pub mod Fixed
pub mod Scaled
use quant_pilot.Base.{ℕ, ◌≡◌, Bool, true, false, not, Option, none, some, ◌&&◌, if◌then◌else◌}
use quant_pilot.Base.Int.{ℤ}

pub record Float (F : Type 0) : Type 0 where
  -- The literal with the digits n and k decimal places.
  pub literal : ℕ → ℕ → F
  pub infinity : F
  -- `float(n)` for an integer n
  pub of_int : ℤ → F
  -- `int(x)`; `none` is the exception that NaN and the infinities raise.
  pub to_int : F → Option ℤ
  pub add : F → F → F
  pub sub : F → F → F
  pub mul : F → F → F
  -- Division where the divisor is not zero: Python raises at zero, and the program guards it.
  pub div : F → F → F
  pub negate : F → F
  pub abs : F → F
  pub sqrt : F → F
  pub copysign : F → F → F
  pub lt : F → F → Bool
  pub le : F → F → Bool
  pub eq : F → F → Bool
  pub is_finite : F → Bool

module _ {F : Type 0} ⦃d : Float F⦄ where
  infixl 65 ◌+◌ ◌-◌
  infixl 70 ◌*◌ ◌/◌
  abbrev pub ◌+◌ : F → F → F
  x + y = d.add x y

  abbrev pub ◌-◌ : F → F → F
  x - y = d.sub x y

  abbrev pub ◌*◌ : F → F → F
  x * y = d.mul x y

  abbrev pub ◌/◌ : F → F → F
  x / y = d.div x y

  abbrev pub abs : F → F
  abs x = d.abs x

  abbrev pub negate : F → F
  negate x = d.negate x

  abbrev pub literal : ℕ → ℕ → F
  literal n k = d.literal n k

  abbrev pub of_int : ℤ → F
  of_int n = d.of_int n

  -- 0.0
  abbrev pub nought : F
  nought = d.literal 0 0

  -- 1
  abbrev pub one : F
  one = d.literal 1 0

  abbrev pub lt : F → F → Bool
  lt x y = d.lt x y

  abbrev pub le : F → F → Bool
  le x y = d.le x y

  abbrev pub eq : F → F → Bool
  eq x y = d.eq x y

  -- `x / y`; `none` is the `ZeroDivisionError`.
  abbrev pub quotient : F → F → Option F
  quotient x y = if d.eq y nought then none else some (d.div x y)

  -- `bool(x)`: true of everything that is not zero, NaN included.
  abbrev pub truthy : F → Bool
  truthy x = not (d.eq x nought)

  -- `min(x, y)` and `max(x, y)` return the first argument unless the second is strictly past it.
  abbrev pub min : F → F → F
  min x y = if d.lt y x then y else x

  abbrev pub max : F → F → F
  max x y = if d.lt x y then y else x

  -- Not NaN.
  abbrev pub IsNumber : F → Type 0
  IsNumber x = d.le x x ≡ true

  abbrev pub IsFinite : F → Type 0
  IsFinite x = d.is_finite x ≡ true

-- The order of the numbers. Comparisons with NaN are false.
pub record IsOrdered (F : Type 0) ⦃d : Float F⦄ : Type 0 where
  pub finite_number : (x : F) → IsFinite x → IsNumber x
  pub nought_finite : IsFinite {F = F} nought
  pub le_trans : (x y z : F) → le x y ≡ true → le y z ≡ true → le x z ≡ true
  pub lt-not_le : (x y : F) → IsNumber x → IsNumber y → lt x y ≡ not (le y x)
  pub eq-le_le : (x y : F) → eq x y ≡ (le x y && le y x)
  pub numbers_of_le : (x y : F) → le x y ≡ true → IsNumber x × IsNumber y
  pub le_of_lt : (x y : F) → lt x y ≡ true → le x y ≡ true

-- Signs under the operations, and magnitudes.
pub record HasSigns (F : Type 0) ⦃d : Float F⦄ : Type 0 where
  pub abs_nonneg : (x : F) → IsNumber x → le nought (abs x) ≡ true
  pub abs_number : (x : F) → IsNumber x → IsNumber (abs x)
  pub abs-copysign : (x y : F) → abs (d.copysign x y) ≡ abs x
  pub abs-le_of_nonneg : (x : F) → le nought x ≡ true → le (abs x) x ≡ true
  pub mul_nonneg :
      (x y : F)
      → IsFinite x
      → IsFinite y
      → le nought x ≡ true
      → le nought y ≡ true
      → le nought (x * y) ≡ true
  pub add_nonneg : (x y : F) → le nought x ≡ true → le nought y ≡ true → le nought (x + y) ≡ true
  -- A finite number less one that it is not below: no overflow, and no sign change by rounding.
  pub sub_nonneg : (x y : F) → IsFinite x → IsFinite y → lt x y ≡ false → le nought (x - y) ≡ true
