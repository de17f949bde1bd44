-- ===== src/Pairs/Total.antt =====
-- Where no close of the first leg is zero, the weights of a pair exist.
use quant_pilot.Base.{
  ℕ, ◌≡◌, inl, inr, refl, false, Option, some, List, [], ◌∷◌, map, ◌||◌, if-cases, All,
}
use quant_pilot.Float.{Float, nought, le, eq, negate}
use quant_pilot.Pairs.{
  PairConfig, ValidatedPair, Walk, PairBar, is_nan, count_bar, enter, trade, next, walk_from, start,
  walk_pair, pair_leg_weights, bars_of, legs,
}
use quant_pilot.Pairs.Pieces.{Stance-cases, IsPiecewise, flat_row, pair_leg_weights-IsPiecewise}

abbrev Yields : {A : Type 0} → Option A → Type 0
Yields {A} o = (a : A) × (o ≡ some a)

module _ {F : Type 0} ⦃d : Float F⦄ where
  trade-Yields :
      (config : PairConfig F) (hedge : F) (b : PairBar F) (w : Walk F)
      → eq b.cy nought ≡ false
      → Yields (trade config hedge b w)
  unfolding trade enter
  trade-Yields config hedge b w priced = elim (Stance-cases w.stance) [
    | inl e ↦ rw e (
        rw priced (
          if-cases Yields (le b.z (negate config.entry_zscore)) (λ _. (_, refl))
            (λ _. if-cases Yields (le config.entry_zscore b.z) (λ _. (_, refl)) (λ _. (_, refl)))))
    | inr (inl e) ↦ rw e (
        if-cases Yields (le config.exit_zscore b.z || le b.z (negate config.stop_zscore))
          (λ _. (_, refl)) (λ _. (_, refl)))
    | inr (inr e) ↦ rw e (
        if-cases Yields (le b.z config.exit_zscore || le config.stop_zscore b.z) (λ _. (_, refl))
          (λ _. (_, refl)))
  ]

  next-Yields :
      (config : PairConfig F) (hedge limit : F) (w : Walk F) (b : PairBar F)
      → eq b.cy nought ≡ false
      → Yields (next config hedge limit w b)
  unfolding next
  next-Yields config hedge limit w b priced =
      if-cases Yields (w.broken || is_nan b.z) (λ _. (_, refl))
        λ _.
          if-cases Yields (count_bar limit w b.z).broken (λ _. (_, refl))
            λ _. trade-Yields config hedge b (count_bar limit w b.z) priced

  walk_from-Yields :
      (config : PairConfig F) (hedge limit : F) (w : Walk F) (zs : List F) (closes : List (F × F))
      → All (λ (c : F × F). eq c.0 nought ≡ false) closes
      → Yields (walk_from config hedge limit w (bars_of zs closes))
  unfolding walk_from bars_of
  walk_from-Yields config hedge limit w [] closes priced = (_, refl)
  walk_from-Yields config hedge limit w (z ∷ zs) [] priced = (_, refl)
  walk_from-Yields config hedge limit w (z ∷ zs) ((y, x) ∷ closes) priced =
      let b : PairBar F = record { z = z; cy = y; cx = x } in
      let (w', e) = next-Yields config hedge limit w b priced.0 in
      let (ws, e') = walk_from-Yields config hedge limit w' zs closes priced.1 in
      (w' ∷ ws, rw e (rw e' refl))

  pub walk_pair-Yields :
      (zscore : ℕ → List F → List F) (closes : List (F × F)) (pair : ValidatedPair F)
      (config : PairConfig F)
      → All (λ (c : F × F). eq c.0 nought ≡ false) closes
      → Yields (walk_pair zscore closes pair config)
  unfolding walk_pair
  walk_pair-Yields zscore closes pair config priced =
      walk_from-Yields config _ _ start _ closes priced

  -- Where no close of the first leg is zero the target weights of a pair exist, and they are
  -- piecewise constant: each bar's weights of the two legs are those of the bar before, or one of
  -- the two bars is flat. So a position keeps the hedge ratio of its entry, and a long position never
  -- turns short without a flat bar between.
  pub pair_leg_weights_lem :
      (zscore : ℕ → List F → List F) (closes : List (F × F)) (pair : ValidatedPair F)
      (config : PairConfig F)
      → All (λ (c : F × F). eq c.0 nought ≡ false) closes
      → (rows : List (F × F)) × (pair_leg_weights zscore closes pair config ≡ some rows)
        × IsPiecewise config.gross_per_pair (flat_row config.gross_per_pair) rows
  pair_leg_weights_lem zscore closes pair config priced =
      let (ws, e) = walk_pair-Yields zscore closes pair config priced in
      let found : pair_leg_weights zscore closes pair config
          ≡ some (map (legs config.gross_per_pair) ws) =
        unfold pair_leg_weights in rw e refl in
      (_, found, pair_leg_weights-IsPiecewise zscore closes pair config _ found)
