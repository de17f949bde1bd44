-- ===== src/Pairs/StepUp.antt =====
-- `benjamini_hochberg` of src/quant_pilot/engine/strategies/cointegration.py beside the step-up rule.
use mathlib.Core.Path.{subst}
use quant_pilot.Base.{
  ℕ, suc, ◌≡◌, refl, ap, ◌∙◌, Bool, true, false, ◌&&◌, ◌||◌, some, List, [], ◌∷◌, map, length,
  maybe, arith, All, Option-cases, inl, inr,
}
use quant_pilot.Float.{Float, IsOrdered, le}
use quant_pilot.Pairs.OuProcess.{Statistics, threshold, cutoff_from, benjamini_hochberg}

module _ {F : Type 0} ⦃d : Float F⦄ where
  -- Ascending: each number is at most every later one.
  abbrev pub IsAscending : List F → Type 0
  IsAscending [] = Unit
  IsAscending (r ∷ rs) = All (λ q. le r q ≡ true) rs × IsAscending rs

  -- Some p-value that is at least p is at most the threshold of its rank; ranks count from i.
  abbrev pub is_rejected : ℕ → F → ℕ → List F → F → Bool
  is_rejected m alpha i [] p = false
  is_rejected m alpha i (r ∷ ranked) p =
      (le r (threshold m alpha i) && le p r) || is_rejected m alpha (suc i) ranked p

  cutoff_from-All :
      (P : F → Type 0) (m : ℕ) (alpha : F) (i : ℕ) (ranked : List F) (cutoff : F)
      → All P ranked
      → cutoff_from m alpha i ranked ≡ some cutoff
      → P cutoff
  unfolding cutoff_from
  cutoff_from-All P m alpha i [] cutoff all found = absurd (ground (arith, found))
  cutoff_from-All P m alpha i (r ∷ ranked) cutoff (h, hs) found =
      elim (Option-cases (cutoff_from m alpha (suc i) ranked)) [
        | inr (c, later) ↦
            cutoff_from-All P m alpha (suc i) ranked cutoff hs
              (later ∙ ground (arith, later, found))
        | inl stop ↦ subst P (ground (arith, stop, found)) h
      ]

  cutoff_from_lem :
      IsOrdered F
      → (m : ℕ) (alpha : F) (i : ℕ) (ranked : List F) (p : F) → IsAscending ranked
      → (maybe (cutoff_from m alpha i ranked) false λ cutoff. le p cutoff)
        ≡ is_rejected m alpha i ranked p
  unfolding cutoff_from
  cutoff_from_lem order m alpha i [] p ascending = refl
  cutoff_from_lem order m alpha i (r ∷ ranked) p (above, ascending) =
      elim (Option-cases (cutoff_from m alpha (suc i) ranked)) [
        | inr (c, later) ↦
            let high : le r c ≡ true =
              cutoff_from-All (λ q. le r q ≡ true) m alpha (suc i) ranked c above later in
            ground (
              arith,
              later,
              cutoff_from_lem order m alpha (suc i) ranked p ascending,
              order.le_trans p r c,
              high,
            )
        | inl stop ↦ ground (arith, stop, cutoff_from_lem order m alpha (suc i) ranked p ascending)
      ]

  map-cong : (f g : F → Bool) → ((q : F) → f q ≡ g q) → (qs : List F) → map f qs ≡ map g qs
  map-cong f g same [] = refl
  map-cong f g same (q ∷ qs) =
      ap (λ b. b ∷ map f qs) (same q) ∙ ap (λ bs. g q ∷ bs) (map-cong f g same qs)

  -- A p-value is rejected just if some p-value that is at least as large is within the threshold of
  -- its rank. The sorting gives the p-values in ascending order, so that none is NaN.
  pub benjamini_hochberg_lem :
      IsOrdered F
      → (np : Statistics F) (ps : List F) (alpha : F) → IsAscending (np.sort ps)
      → benjamini_hochberg np ps alpha ≡ map (is_rejected (length ps) alpha 1 (np.sort ps)) ps
  unfolding benjamini_hochberg
  benjamini_hochberg_lem order np [] alpha ascending = refl
  benjamini_hochberg_lem order np (p ∷ ps) alpha ascending =
      let rejected = is_rejected (length (p ∷ ps)) alpha 1 (np.sort (p ∷ ps)) in
      let rule =
        λ (q : F). cutoff_from_lem order (length (p ∷ ps)) alpha 1 (np.sort (p ∷ ps)) q ascending in
      elim (Option-cases (cutoff_from (length (p ∷ ps)) alpha 1 (np.sort (p ∷ ps)))) [
        | inl stop ↦
            rw stop (map-cong (λ q. false) rejected (λ q. ground (arith, rule q, stop)) (p ∷ ps))
        | inr (cutoff, found) ↦
            rw found
              (map-cong (λ q. le q cutoff) rejected (λ q. ground (arith, rule q, found)) (p ∷ ps))
      ]
