-- ===== src/Risk/Sizing/Caps.antt =====
-- The limit on single positions under the caps of position_sizing.py.
use quant_pilot.Base.{
  String, ◌≡◌, Bool, true, false, ◌&&◌, Option, List, [], ◌∷◌, map, keep, is_empty, if◌then◌else◌,
  arith, All, Bool-cases, inl, inr, if-cases, maybe-cases, not,
}
use quant_pilot.Base.Dict.{Dict}
use quant_pilot.Float.{
  Float, IsOrdered, HasSigns, IsNumber, IsFinite, ◌*◌, ◌/◌, abs, negate, nought, one, lt, le,
  truthy,
}
use quant_pilot.Risk.Sizing.{Weights, clip, contains, cap_sector, cap_sectors, apply_position_caps}

-- Magnitudes, and products with a factor of at most one.
pub record HasScaling (F : Type 0) ⦃d : Float F⦄ : Type 0 where
  pub abs-negate : (x : F) → abs (negate x) ≡ abs x
  pub abs_le : (x c : F) → le (negate c) x ≡ true → le x c ≡ true → le (abs x) c ≡ true
  pub negate_number : (x : F) → IsNumber x → IsNumber (negate x)
  pub finite_of_le : (x c : F) → IsFinite c → le (abs x) c ≡ true → IsFinite x
  pub share :
      (a b : F)
      → lt nought a ≡ true
      → lt a b ≡ true
      → le nought (a / b) ≡ true × (le (a / b) one ≡ true)
  pub shrink :
      (x k : F)
      → IsFinite x
      → le nought k ≡ true
      → le k one ≡ true
      → le (abs (x * k)) (abs x) ≡ true

module _ {F : Type 0} ⦃d : Float F⦄ (order : IsOrdered F) (signs : HasSigns F)
    (scaling : HasScaling F) (cap : F) (finite : IsFinite cap)
    (positive : le nought cap ≡ true) where
  abbrev pub IsWithin : String × F → Type 0
  IsWithin (symbol, x) = le (abs x) cap ≡ true

  clip-IsWithin :
      (symbol : String) (x : F) → IsNumber x → IsWithin (symbol, clip (negate cap) cap x)
  clip-IsWithin symbol x number =
      let whole = order.finite_number cap finite in
      elim (Bool-cases (lt x (negate cap))) [
        | inl low ↦ rw low (
            if-cases (λ y. IsWithin (symbol, y)) (lt cap (negate cap))
              (λ _. signs.abs-le_of_nonneg cap positive)
              (λ _. rw (scaling.abs-negate cap) (signs.abs-le_of_nonneg cap positive)))
        | inr not_low ↦ elim (Bool-cases (lt cap x)) [
          | inl high ↦ rw not_low (rw high (signs.abs-le_of_nonneg cap positive))
          | inr not_high ↦ rw not_low (
              rw not_high (
                scaling.abs_le x cap
                  (ground (
                    arith,
                    order.lt-not_le x (negate cap) number (scaling.negate_number cap whole),
                    not_low,
                  ))
                  (ground (arith, order.lt-not_le cap x whole number, not_high))))
        ]
      ]

  clip-AllWithin :
      (w : Weights F)
      → All (λ (_, x). IsNumber x) w
      → All IsWithin (map (λ (symbol, x). (symbol, clip (negate cap) cap x)) w)
  clip-AllWithin [] numbers = tt
  clip-AllWithin ((symbol, x) ∷ w) (h, numbers) =
      (clip-IsWithin symbol x h, clip-AllWithin w numbers)

  scaled-IsWithin :
      (symbol : String) (b : Bool) (x k : F)
      → IsWithin (symbol, x)
      → le nought k ≡ true
      → le k one ≡ true
      → IsWithin (symbol, if b then x * k else x)
  scaled-IsWithin symbol true x k within low high =
      order.le_trans (abs (x * k)) (abs x) cap
        (scaling.shrink x k (scaling.finite_of_le x cap finite within) low high) within
  scaled-IsWithin symbol false x k within low high = within

  scaled-AllWithin :
      (test : String → Bool) (k : F) (w : Weights F)
      → All IsWithin w
      → le nought k ≡ true
      → le k one ≡ true
      → All IsWithin (map (λ (symbol, x). (symbol, if test symbol then x * k else x)) w)
  scaled-AllWithin test k [] within low high = tt
  scaled-AllWithin test k ((symbol, x) ∷ w) (h, within) low high = (
    scaled-IsWithin symbol (test symbol) x k h low high,
    scaled-AllWithin test k w within low high,
  )

  module _ (sum : List F → F) where
    cap_sector-AllWithin :
        (limit : F) (syms : List String) (w : Weights F)
        → All IsWithin w
        → All IsWithin (cap_sector sum limit syms w)
    unfolding cap_sector
    cap_sector-AllWithin limit syms w within =
        let gross =
          sum (map (λ (_, x). abs x) (keep (λ (symbol, _). contains sum syms symbol) w)) in
        if-cases (All IsWithin) (lt limit gross && lt nought limit)
          (λ over.
            let (low, high) =
              scaling.share limit gross (ground (arith, over)) (ground (arith, over)) in
            scaled-AllWithin (contains sum syms) (limit / gross) w within low high)
          (λ fine. within)

    cap_sectors-AllWithin :
        (limit : F) (sectors : List (List String)) (w : Weights F)
        → All IsWithin w
        → All IsWithin (cap_sectors sum limit sectors w)
    unfolding cap_sectors
    cap_sectors-AllWithin limit [] w within = within
    cap_sectors-AllWithin limit (syms ∷ sectors) w within =
        cap_sectors-AllWithin limit sectors (cap_sector sum limit syms w)
          (cap_sector-AllWithin limit syms w within)

    -- After the caps no weight exceeds the limit on a position, whatever the sectors: the scaling of
    -- a sector never makes a weight larger. The weights are not NaN, and the limit is finite and not
    -- negative.
    pub apply_position_caps-AllWithin :
        (weights : Weights F) (sector_map : Option (Dict String)) (max_sector_pct : Option F)
        → All (λ (_, x). IsNumber x) weights
        → All IsWithin (apply_position_caps sum weights cap sector_map max_sector_pct)
    unfolding apply_position_caps
    apply_position_caps-AllWithin weights sector_map max_sector_pct numbers =
        let clipped = clip-AllWithin weights numbers in
        maybe-cases (All IsWithin) sector_map (λ _. clipped)
          λ sectors _.
            maybe-cases (All IsWithin) max_sector_pct (λ _. clipped)
              λ limit _.
                if-cases (All IsWithin) (not (is_empty sectors) && truthy limit)
                  (λ _. cap_sectors-AllWithin limit _ _ clipped) (λ _. clipped)
