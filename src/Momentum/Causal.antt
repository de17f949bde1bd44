-- ===== src/Momentum/Causal.antt =====
-- The momentum weights of a date look at nothing after it.
use quant_pilot.Base.{
  ℕ, ◌≤◌, ◌+◌, String, ◌≡◌, refl, sym, ap, ◌∙◌, Option, none, some, List, [], ◌∷◌, map, any, ◌==◌,
  if◌then◌else◌, arith, All, Option-cases, inl, inr,
}
use quant_pilot.Float.{Float, ◌-◌, one, lt, nought}
use quant_pilot.Momentum.{
  MomentumConfig, Row, Eligibility, Pandas, upto, asof_months, momentum_score, scores_of,
  inverse_vol, regime_scale, target_row, apply_band, weights_from,
}

-- What is known up to an earlier date is part of what is known up to a later one.
upto-upto :
    {A : Type 0} (e t : ℕ) (rows : List (ℕ × A)) → e ≤ t → upto e (upto t rows) ≡ upto e rows
upto-upto e t [] early = refl
upto-upto e t (r ∷ rows) early = ground (arith, upto-upto e t rows early)

any-upto :
    {A : Type 0} (t : ℕ) (rows : List (ℕ × A))
    → any (λ r. r.0 == t) (upto t rows) ≡ any (λ r. r.0 == t) rows
any-upto t [] = refl
any-upto t (r ∷ rows) = ground (arith, any-upto t rows)

-- The part of an optional series up to a date.
abbrev pub vrp_upto : {F : Type 0} → ℕ → Option (List (ℕ × F)) → Option (List (ℕ × F))
vrp_upto t none = none
vrp_upto t (some vrp) = some (upto t vrp)

vrp_upto-vrp_upto :
    {F : Type 0} (e t : ℕ) (vrp : Option (List (ℕ × F)))
    → e ≤ t
    → vrp_upto e (vrp_upto t vrp) ≡ vrp_upto e vrp
vrp_upto-vrp_upto e t none early = refl
vrp_upto-vrp_upto e t (some vrp) early = ap some (upto-upto e t vrp early)

module _ {F : Type 0} ⦃d : Float F⦄ (pd : Pandas F) (config : MomentumConfig F)
    (symbols : List String) (months_back : (t n : ℕ) → pd.months_before t n ≤ t) where
  momentum_score-upto :
      (t : ℕ) (close : List (ℕ × Row F))
      → momentum_score pd config symbols (upto t close) t ≡ momentum_score pd config symbols close t
  unfolding momentum_score
  momentum_score-upto t close =
      let same : (n : ℕ)
          → asof_months pd config symbols (upto t close) t n
            ≡ asof_months pd config symbols close t n =
        λ n.
          ap (λ (rows : List (ℕ × Row F)). pd.asof (map (λ r. r.1) rows))
            (upto-upto (pd.months_before t n) t close (months_back t n)) in
      λ i symbol. pd.mean (
        map
          (λ lb.
            pd.divide (same config.skip_months i symbol) (same (lb + config.skip_months) i symbol)
            - one)
          config.lookbacks)

  scores_of-upto :
      (t : ℕ) (close : List (ℕ × Row F)) (membership : Option Eligibility)
      → scores_of pd config symbols (upto t close) membership t
        ≡ scores_of pd config symbols close membership t
  unfolding scores_of
  scores_of-upto t close membership = rw (momentum_score-upto t close) refl

  inverse_vol-upto :
      (t : ℕ) (close : List (ℕ × Row F))
      → inverse_vol pd config symbols (upto t close) t ≡ inverse_vol pd config symbols close t
  unfolding inverse_vol
  inverse_vol-upto t close =
      let of_rows : List (ℕ × Row F) → String → F = λ rows symbol.
        let inv =
          pd.divide one (pd.rolling_deviation config.vol_window (map (λ r. r.1 symbol) rows)) in
        if d.is_finite inv then inv else nought in
      ap of_rows (upto-upto t t close (ground arith))

  regime_scale-upto :
      (t : ℕ) (vrp : Option (List (ℕ × F)))
      → regime_scale pd config symbols (vrp_upto t vrp) t ≡ regime_scale pd config symbols vrp t
  unfolding regime_scale
  regime_scale-upto t none = refl
  regime_scale-upto t (some vrp) = rw (any-upto t vrp) (rw (upto-upto t t vrp (ground arith)) refl)

  target_row-upto :
      (t : ℕ) (close : List (ℕ × Row F)) (membership : Option Eligibility)
      (vrp : Option (List (ℕ × F)))
      → target_row pd config symbols (upto t close) membership (vrp_upto t vrp) t
        ≡ target_row pd config symbols close membership vrp t
  unfolding target_row
  target_row-upto t close membership vrp =
      rw (scores_of-upto t close membership)
        (rw (inverse_vol-upto t close) (rw (regime_scale-upto t vrp) refl))

  -- The weights of rebalance dates up to a date are the same when they are computed from the closes
  -- and the regime series up to that date only. The date some months back is not later.
  pub weights_from-upto :
      (now : ℕ) (close : List (ℕ × Row F)) (membership : Option Eligibility)
      (vrp : Option (List (ℕ × F))) (prev : Row F) (ts : List ℕ)
      → All (λ t. t ≤ now) ts
      → weights_from pd config symbols (upto now close) membership (vrp_upto now vrp) prev ts
        ≡ weights_from pd config symbols close membership vrp prev ts
  unfolding weights_from
  weights_from-upto now close membership vrp prev [] early = refl
  weights_from-upto now close membership vrp prev (t ∷ ts) (early, rest) =
      let same : target_row pd config symbols (upto now close) membership (vrp_upto now vrp) t
          ≡ target_row pd config symbols close membership vrp t =
        sym (target_row-upto t (upto now close) membership (vrp_upto now vrp))
        ∙ rw (upto-upto t now close early) (rw (vrp_upto-vrp_upto t now vrp early) refl)
        ∙ target_row-upto t close membership vrp in
      elim (Option-cases (target_row pd config symbols close membership vrp t)) [
        | inl refused ↦ rw same (rw refused refl)
        | inr (target, found) ↦
            let banded =
              if lt nought config.turnover_band
              then apply_band pd config symbols prev target
              else target in
            rw same (rw found (rw (weights_from-upto now close membership vrp banded ts rest) refl))
      ]
