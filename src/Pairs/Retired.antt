-- ===== src/Pairs/Retired.antt =====
-- A pair whose spread has stopped crossing its mean is retired. The count of bars without a crossing
-- is described from the z-scores alone.
use quant_pilot.Base.{
  ℕ, zero, suc, ◌≡◌, ◌⊎◌, inl, inr, refl, ◌∙◌, Bool, true, false, Option, none, some, List, [], ◌∷◌,
  ◌||◌, map, if-cases, maybe-cases, All, arith, if◌then◌else◌, Bool-cases,
}
use mathlib.Core.Path.{subst}
use quant_pilot.Base.Int.{pos}
use quant_pilot.Float.{Float, of_int, le, lt, eq, nought, negate}
use quant_pilot.Pairs.{
  PairConfig, ValidatedPair, Stance, Walk, PairBar, Sign, is_nan, sign_of, has_crossed, last_sign,
  count_bar, enter, trade, next, walk_from, start, walk_pair, max_no_cross, bars_of, compute_spread,
}
use quant_pilot.Pairs.Total.{walk_pair-Yields}
use quant_pilot.Pairs.Pieces.{Stance-cases}

abbrev pub is_above : Sign → Bool
is_above Sign.above = true
is_above _ = false

abbrev pub is_below : Sign → Bool
is_below Sign.below = true
is_below _ = false

module _ {F : Type 0} ⦃d : Float F⦄ where
  -- The side of the mean of the newest z-score that is not on it; z-scores stand newest first.
  unfoldable pub side_of : List F → Sign
  side_of [] = Sign.null
  side_of (z ∷ zs) =
      if lt nought z then Sign.above else if lt z nought then Sign.below else side_of zs

  -- Whether a z-score is on the other side than those before it.
  abbrev pub crosses : F → List F → Bool
  crosses z zs =
      if lt nought z
      then is_below (side_of zs)
      else if lt z nought
      then is_above (side_of zs)
      else false

  -- The number of z-scores since the last crossing.
  unfoldable pub since_crossing : List F → ℕ
  since_crossing [] = 0
  since_crossing (z ∷ zs) = if crosses z zs then 0 else suc (since_crossing zs)

  -- Whether, after some z-score, there were more without a crossing than the limit.
  unfoldable pub has_broken : F → List F → Bool
  has_broken limit [] = false
  has_broken limit (z ∷ zs) =
      has_broken limit zs || lt limit (of_int (pos (since_crossing (z ∷ zs))))

  -- The z-scores so far, of which those that are not numbers are left out.
  abbrev pub and_then : F → List F → List F
  and_then z zs = if is_nan z then zs else z ∷ zs

  -- A pair is retired when the z-scores so far say so, and is then flat.
  abbrev pub RetiresBy : F → List F → Walk F → Type 0
  RetiresBy limit zs w =
      (w.broken ≡ has_broken limit zs) × ((w.broken ≡ false) ⊎ (w.stance ≡ Stance.flat))

  -- What the walk knows of the z-scores so far, while the pair is not retired.
  abbrev Knows : F → List F → Walk F → Type 0
  Knows limit zs w =
      RetiresBy limit zs w
      × ((w.broken ≡ true) ⊎ ((w.bars_no_cross ≡ since_crossing zs) × (w.prev_sign ≡ side_of zs)))

  abbrev KnowsIfAny : F → List F → Option (Walk F) → Type 0
  KnowsIfAny limit zs none = Unit
  KnowsIfAny limit zs (some w) = Knows limit zs w

  -- Trading changes neither the count, nor the side, nor the break.
  abbrev Trades : Walk F → Option (Walk F) → Type 0
  Trades w none = Unit
  Trades w (some w') =
      (w'.broken ≡ w.broken) × (w'.bars_no_cross ≡ w.bars_no_cross) × (w'.prev_sign ≡ w.prev_sign)

  trade-Trades :
      (config : PairConfig F) (hedge : F) (b : PairBar F) (w : Walk F)
      → Trades w (trade config hedge b w)
  unfolding trade enter
  trade-Trades config hedge b w = elim (Stance-cases w.stance) [
    | inl e ↦ rw e (
        if-cases (Trades w) (le b.z (negate config.entry_zscore))
          (λ _. if-cases (Trades w) (eq b.cy nought) (λ _. tt) (λ _. (refl, refl, refl)))
          (λ _.
            if-cases (Trades w) (le config.entry_zscore b.z)
              (λ _. if-cases (Trades w) (eq b.cy nought) (λ _. tt) (λ _. (refl, refl, refl)))
              (λ _. (refl, refl, refl))))
    | inr (inl e) ↦ rw e (
        if-cases (Trades w) (le config.exit_zscore b.z || le b.z (negate config.stop_zscore))
          (λ _. (refl, refl, refl)) (λ _. (refl, refl, refl)))
    | inr (inr e) ↦ rw e (
        if-cases (Trades w) (le b.z config.exit_zscore || le config.stop_zscore b.z)
          (λ _. (refl, refl, refl)) (λ _. (refl, refl, refl)))
  ]

  Knows-of_trade :
      (limit : F) (zs : List F) (w : Walk F) (o : Option (Walk F))
      → w.broken ≡ false
      → Knows limit zs w
      → Trades w o
      → KnowsIfAny limit zs o
  Knows-of_trade limit zs w none going known t = tt
  Knows-of_trade limit zs w (some v) going ((verdict, _), inl broke) t = ground arith
  Knows-of_trade limit zs w (some v) going ((verdict, _), inr (bars, side)) (broken, same, kept) =
      ((broken ∙ verdict, inl (broken ∙ going)), inr (same ∙ bars, kept ∙ side))

  has_crossed_lem :
      (prev : Sign) (z : F)
      → has_crossed prev (sign_of z)
        ≡ (if lt nought z then is_below prev else if lt z nought then is_above prev else false)
  has_crossed_lem Sign.above z = ground arith
  has_crossed_lem Sign.below z = ground arith
  has_crossed_lem Sign.null z = ground arith

  last_sign_lem :
      (prev : Sign) (z : F)
      → last_sign prev (sign_of z)
        ≡ (if lt nought z then Sign.above else if lt z nought then Sign.below else prev)
  last_sign_lem Sign.above z = ground arith
  last_sign_lem Sign.below z = ground arith
  last_sign_lem Sign.null z = ground arith

  count_bar-Knows :
      (limit z : F) (zs : List F) (w : Walk F)
      → w.broken ≡ false
      → Knows limit zs w
      → Knows limit (z ∷ zs) (count_bar limit w z)
  unfolding count_bar has_broken since_crossing side_of
  count_bar-Knows limit z zs w going ((verdict, _), inl broke) = cc
  count_bar-Knows limit z zs w going ((verdict, _), inr (bars, side)) =
      let crossed : has_crossed w.prev_sign (sign_of z) ≡ crosses z zs =
        has_crossed_lem w.prev_sign z ∙ rw side refl in
      let now : last_sign w.prev_sign (sign_of z) ≡ side_of (z ∷ zs) =
        last_sign_lem w.prev_sign z ∙ rw side refl in
      rw (crossed, now, bars) (ground (arith, going, verdict))

  broken-Knows :
      (limit z : F) (zs : List F) (w : Walk F)
      → w.broken ≡ true
      → Knows limit zs w
      → Knows limit (and_then z zs) w
  unfolding has_broken
  broken-Knows limit z zs w broke ((verdict, flat), known) = elim (Bool-cases (is_nan z)) [
    | inl missing ↦ rw missing ((verdict, flat), known)
    | inr there ↦ rw there ((ground arith, flat), inl broke)
  ]

  next-Knows :
      (config : PairConfig F) (hedge limit : F) (w : Walk F) (b : PairBar F) (zs : List F)
      → Knows limit zs w
      → KnowsIfAny limit (and_then b.z zs) (next config hedge limit w b)
  unfolding next
  next-Knows config hedge limit w b zs known =
      let counted = count_bar limit w b.z in
      if-cases (KnowsIfAny limit (and_then b.z zs)) (w.broken || is_nan b.z)
        (λ skipped. elim (Bool-cases w.broken) [
          | inl broke ↦ broken-Knows limit b.z zs w broke known
          | inr going ↦ let missing : is_nan b.z ≡ true = ground arith in rw missing known
        ])
        (λ counts.
          let going : w.broken ≡ false = ground arith in
          let there : is_nan b.z ≡ false = ground arith in
          let now = count_bar-Knows limit b.z zs w going known in
          rw there (
            if-cases (KnowsIfAny limit (b.z ∷ zs)) counted.broken (λ _. now)
              (λ still.
                Knows-of_trade limit (b.z ∷ zs) counted _ still now
                  (trade-Trades config hedge b counted))))

  -- After every bar the pair is retired when the z-scores up to that bar say so, and then flat.
  abbrev pub IsRetiring : F → List F → List F → List (Walk F) → Type 0
  IsRetiring limit zs [] [] = Unit
  IsRetiring limit zs (z ∷ rest) (w ∷ ws) =
      RetiresBy limit (and_then z zs) w × IsRetiring limit (and_then z zs) rest ws
  IsRetiring limit zs _ _ = zero ≡ 1

  abbrev RetiresIfAny : F → List F → List F → Option (List (Walk F)) → Type 0
  RetiresIfAny limit zs rest none = Unit
  RetiresIfAny limit zs rest (some ws) = IsRetiring limit zs rest ws

  walk_from-RetiresIfAny :
      (config : PairConfig F) (hedge limit : F) (w : Walk F) (zs : List F) (bs : List (PairBar F))
      → Knows limit zs w
      → RetiresIfAny limit zs (map (λ b. b.z) bs) (walk_from config hedge limit w bs)
  unfolding walk_from
  walk_from-RetiresIfAny config hedge limit w zs [] known = tt
  walk_from-RetiresIfAny config hedge limit w zs (b ∷ bs) known =
      let rest = map (λ (b : PairBar F). b.z) bs in
      let seen = and_then b.z zs in
      maybe-cases (RetiresIfAny limit zs (b.z ∷ rest)) (next config hedge limit w b) (λ _. tt)
        λ w' e.
          maybe-cases (RetiresIfAny limit zs (b.z ∷ rest)) (walk_from config hedge limit w' bs)
            (λ _. tt)
            λ ws e'.
              let known' =
                subst (KnowsIfAny limit seen) e (next-Knows config hedge limit w b zs known) in
              (
                known'.0,
                subst (RetiresIfAny limit seen rest) e'
                    (walk_from-RetiresIfAny config hedge limit w' seen bs known'),
              )

  -- The z-scores of the bars of a pair.
  abbrev pub zscores :
      (ℕ → List F → List F) → List (F × F) → ValidatedPair F → PairConfig F → List F
  zscores zscore closes pair config =
      map (λ b. b.z)
        (bars_of
          (zscore config.zscore_window (compute_spread pair.hedge_ratio pair.intercept closes))
          closes)

  walk_pair-RetiresIfAny :
      (zscore : ℕ → List F → List F) (closes : List (F × F)) (pair : ValidatedPair F)
      (config : PairConfig F)
      → RetiresIfAny
          (max_no_cross config pair.ou.half_life)
          []
          (zscores zscore closes pair config)
          (walk_pair zscore closes pair config)
  unfolding walk_pair has_broken since_crossing side_of
  walk_pair-RetiresIfAny zscore closes pair config =
      walk_from-RetiresIfAny config pair.hedge_ratio (max_no_cross config pair.ou.half_life) start
        [] _ ((refl, inl refl), inr (refl, refl))

  -- After every bar a pair is retired exactly when, at that bar or before, more z-scores in a row than
  -- the limit did not cross the mean; a retired pair is flat. A crossing is a z-score on the other side
  -- of zero than the last one that was not zero, and z-scores that are not numbers do not count. No
  -- close of the first leg is zero.
  pub walk_pair-IsRetiring :
      (zscore : ℕ → List F → List F) (closes : List (F × F)) (pair : ValidatedPair F)
      (config : PairConfig F)
      → All (λ (c : F × F). eq c.0 nought ≡ false) closes
      → (ws : List (Walk F)) × (walk_pair zscore closes pair config ≡ some ws)
        × IsRetiring
            (max_no_cross config pair.ou.half_life)
            []
            (zscores zscore closes pair config)
            ws
  walk_pair-IsRetiring zscore closes pair config priced =
      let (ws, e) = walk_pair-Yields zscore closes pair config priced in
      (
        ws,
        e,
        subst
            (RetiresIfAny (max_no_cross config pair.ou.half_life) []
              (zscores zscore closes pair config))
            e (walk_pair-RetiresIfAny zscore closes pair config),
      )
