-- ===== src/Pairs/Pieces.antt =====
-- The weights of a pair change only when a position is opened or closed.
use quant_pilot.Base.{
  ℕ, ◌≡◌, ◌⊎◌, inl, inr, refl, sym, ◌∙◌, true, false, Option, none, some, List, [], ◌∷◌, map, arith,
  ◌||◌, if-cases, maybe-cases,
}
use mathlib.Core.Path.{subst}
use quant_pilot.Base.Int.{pos}
use quant_pilot.Float.{Float, ◌*◌, nought, of_int, le, lt, negate}
use quant_pilot.Pairs.{
  PairConfig, ValidatedPair, Stance, Walk, PairBar, is_nan, count_bar, trade, next, legs, hedge_leg,
  walk_from, start, walk_pair, pair_leg_weights,
}

pub Stance-cases : (s : Stance) → (s ≡ Stance.flat) ⊎ ((s ≡ Stance.long) ⊎ (s ≡ Stance.short))
Stance-cases Stance.flat = inl refl
Stance-cases Stance.long = inr (inl refl)
Stance-cases Stance.short = inr (inr refl)

module _ {F : Type 0} ⦃d : Float F⦄ where
  -- What one bar does to a position: it was flat, or it is now, or it is held at the same ratio.
  abbrev pub Holds : Walk F → Walk F → Type 0
  Holds w w' =
      (w.stance ≡ Stance.flat)
      ⊎ ((w'.stance ≡ Stance.flat) ⊎ ((w'.stance ≡ w.stance) × (w'.entry_ratio ≡ w.entry_ratio)))

  abbrev HoldsIfAny : Walk F → Option (Walk F) → Type 0
  HoldsIfAny w none = Unit
  HoldsIfAny w (some w') = Holds w w'

  Holds-of_flat : (w : Walk F) (o : Option (Walk F)) → w.stance ≡ Stance.flat → HoldsIfAny w o
  Holds-of_flat w none e = tt
  Holds-of_flat w (some w') e = inl e

  trade-Holds :
      (config : PairConfig F) (hedge : F) (b : PairBar F) (w w' : Walk F)
      → w'.stance ≡ w.stance
      → w'.entry_ratio ≡ w.entry_ratio
      → HoldsIfAny w (trade config hedge b w')
  unfolding trade
  trade-Holds config hedge b w w' same kept = elim (Stance-cases w'.stance) [
    | inl e ↦ Holds-of_flat w (trade config hedge b w') (sym same ∙ e)
    | inr (inl e) ↦ rw e (
        if-cases (HoldsIfAny w) (le config.exit_zscore b.z || le b.z (negate config.stop_zscore))
          (λ _. inr (inl refl)) (λ _. inr (inr (sym e ∙ same, kept))))
    | inr (inr e) ↦ rw e (
        if-cases (HoldsIfAny w) (le b.z config.exit_zscore || le config.stop_zscore b.z)
          (λ _. inr (inl refl)) (λ _. inr (inr (sym e ∙ same, kept))))
  ]

  -- The count either breaks the pair, which is then flat, or leaves its position.
  pub count_bar_cases :
      (limit : F) (w : Walk F) (z : F)
      → let w' = count_bar limit w z in
        ((w'.broken ≡ true) × (w'.stance ≡ Stance.flat))
        ⊎ ((w'.broken ≡ w.broken)
            × (w'.stance ≡ w.stance)
            × (w'.entry_ratio ≡ w.entry_ratio)
            × (lt limit (of_int (pos w'.bars_no_cross)) ≡ false))
  unfolding count_bar
  count_bar_cases limit w z = ground arith

  next-Holds :
      (config : PairConfig F) (hedge limit : F) (w : Walk F) (b : PairBar F)
      → HoldsIfAny w (next config hedge limit w b)
  unfolding next
  next-Holds config hedge limit w b =
      if-cases (HoldsIfAny w) (w.broken || is_nan b.z) (λ _. inr (inr (refl, refl)))
        λ going. elim (count_bar_cases limit w b.z) [
          | inl (broke, flat) ↦ rw broke (inr (inl flat))
          | inr (same, stance, ratio, _) ↦
              if-cases (HoldsIfAny w) (count_bar limit w b.z).broken
                (λ _. inr (inr (stance, ratio)))
                (λ _. trade-Holds config hedge b w (count_bar limit w b.z) stance ratio)
        ]

  -- The weights of a flat position.
  abbrev pub flat_row : F → F × F
  flat_row gross = (of_int (pos 0) * gross, nought)

  -- Each row of weights is the one before it, or one of the two is flat.
  abbrev pub IsPiecewise : F → F × F → List (F × F) → Type 0
  IsPiecewise gross row [] = Unit
  IsPiecewise gross row (r ∷ rs) =
      ((row ≡ flat_row gross) ⊎ ((r ≡ flat_row gross) ⊎ (r ≡ row))) × IsPiecewise gross r rs

  legs_kept :
      (gross : F) (w w' : Walk F)
      → w'.stance ≡ w.stance
      → w'.entry_ratio ≡ w.entry_ratio
      → legs gross w' ≡ legs gross w
  unfolding legs
  legs_kept gross w w' e r = cc

  legs-Holds :
      (gross : F) (w w' : Walk F)
      → Holds w w'
      → (legs gross w ≡ flat_row gross)
        ⊎ ((legs gross w' ≡ flat_row gross) ⊎ (legs gross w' ≡ legs gross w))
  unfolding legs hedge_leg
  legs-Holds gross w w' (inl e) = inl (rw e refl)
  legs-Holds gross w w' (inr (inl e)) = inr (inl (rw e refl))
  legs-Holds gross w w' (inr (inr (e, r))) = inr (inr (legs_kept gross w w' e r))

  abbrev RowsIfAny : F → Walk F → Option (List (Walk F)) → Type 0
  RowsIfAny gross w none = Unit
  RowsIfAny gross w (some ws) = IsPiecewise gross (legs gross w) (map (legs gross) ws)

  walk_from-RowsIfAny :
      (config : PairConfig F) (hedge limit gross : F) (w : Walk F) (bs : List (PairBar F))
      → RowsIfAny gross w (walk_from config hedge limit w bs)
  unfolding walk_from
  walk_from-RowsIfAny config hedge limit gross w [] = tt
  walk_from-RowsIfAny config hedge limit gross w (b ∷ bs) =
      maybe-cases (RowsIfAny gross w) (next config hedge limit w b) (λ _. tt)
        λ w' e.
          maybe-cases (RowsIfAny gross w) (walk_from config hedge limit w' bs) (λ _. tt)
            λ ws e'. (
              legs-Holds gross w w' (subst (HoldsIfAny w) e (next-Holds config hedge limit w b)),
              subst (RowsIfAny gross w') e' (walk_from-RowsIfAny config hedge limit gross w' bs),
            )

  abbrev PiecesIfAny : F → Option (List (F × F)) → Type 0
  PiecesIfAny gross none = Unit
  PiecesIfAny gross (some rows) = IsPiecewise gross (flat_row gross) rows

  pub pair_leg_weights-IsPiecewise :
      (zscore : ℕ → List F → List F) (closes : List (F × F)) (pair : ValidatedPair F)
      (config : PairConfig F)
      → (rows : List (F × F)) → pair_leg_weights zscore closes pair config ≡ some rows
      → IsPiecewise config.gross_per_pair (flat_row config.gross_per_pair) rows
  unfolding pair_leg_weights walk_pair legs hedge_leg
  pair_leg_weights-IsPiecewise zscore closes pair config rows e =
      subst (PiecesIfAny config.gross_per_pair) e (
        maybe-cases (PiecesIfAny config.gross_per_pair) (walk_pair zscore closes pair config)
          (λ _. tt)
          λ ws e'.
            subst (RowsIfAny config.gross_per_pair start) e'
              (walk_from-RowsIfAny config _ _ config.gross_per_pair start _))
