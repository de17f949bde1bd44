-- ===== src/Pairs/Validated.antt =====
-- What `select_pairs` of src/quant_pilot/engine/strategies/pairs_trading.py promises of a pair that it
-- selects.
use mathlib.Core.Path.{subst}
use quant_pilot.Base.{
  ℕ, String, ◌≡◌, refl, Bool, true, false, Option, none, some, List, [], ◌∷◌, map, sym, ap,
  All-weaken, keep, length, All, Bool-cases, inl, inr, if◌then◌else◌, maybe, maybe-cases,
}
use quant_pilot.Base.Int.{ℤ, pos}
use quant_pilot.Base.Dict.{Dict, lookup}
use mathlib.Core.List.{Memᴰ}
use mathlib.Core.List.Memᴰ.{head, tail}
use quant_pilot.Float.{Float, IsOrdered, ◌*◌, of_int}
use quant_pilot.Pairs.{OuParams, ValidatedPair, PairConfig}
use quant_pilot.Pairs.OuProcess.{Statistics, engle_granger}
use quant_pilot.Pairs.StepUp.{IsAscending, is_rejected, benjamini_hochberg_lem}
use quant_pilot.Pairs.Selection.{
  iloc_to, training_fit, is_eligible, info_of, infos_of, is_tradable, holdout_fit, is_selected,
  select_from, select_pairs,
}

module _ {F : Type 0} ⦃d : Float F⦄ (np : Statistics F) (config : PairConfig F)
    (close : Dict (List F)) (split : ℤ) where
  -- Tradable again, as fitted to the held-out rows with the hedge of the training rows.
  abbrev pub IsHeldOut : ValidatedPair F → Type 0
  IsHeldOut info =
      (oos : OuParams F) × (holdout_fit np config close split info ≡ some (some oos))
      × (is_tradable np config oos ≡ true)

  abbrev pub AllOf : (ValidatedPair F → Type 0) → Option (List (ValidatedPair F)) → Type 0
  AllOf P none = Unit
  AllOf P (some infos) = All P infos

  abbrev Passes : Bool → ValidatedPair F → Option Bool → Type 0
  Passes ok info (some true) = (ok ≡ true) × (is_tradable np config info.ou ≡ true) × IsHeldOut info
  Passes ok info _ = Unit

  held_out :
      (info : ValidatedPair F) (oos : Option (OuParams F))
      → holdout_fit np config close split info ≡ some oos
      → is_tradable np config info.ou ≡ true
      → Passes true info (some (maybe oos false (is_tradable np config)))
  held_out info none fitted good = tt
  held_out info (some oos) fitted good = elim (Bool-cases (is_tradable np config oos)) [
    | inl again ↦ rw again (refl, good, (oos, fitted, again))
    | inr not_again ↦ rw not_again tt
  ]

  is_selected-Passes :
      (info : ValidatedPair F) (ok : Bool)
      → Passes ok info (is_selected np config close split info ok)
  unfolding is_selected
  is_selected-Passes info false = tt
  is_selected-Passes info true = elim (Bool-cases (is_tradable np config info.ou)) [
    | inl good ↦ rw good (
        maybe-cases (Passes true info) (holdout_fit np config close split info) (λ _. tt)
          (λ oos fitted. held_out info oos fitted good))
    | inr bad ↦ rw bad tt
  ]

  -- What a selected pair has, from what all infos have and the bits of their places.
  abbrev IsChosen : (ValidatedPair F → Type 0) → (ValidatedPair F → Bool) → ValidatedPair F → Type 0
  IsChosen P test info =
      P info × (test info ≡ true) × (is_tradable np config info.ou ≡ true) × IsHeldOut info

  select_from-AllOf :
      (P : ValidatedPair F → Type 0) (test : ValidatedPair F → Bool)
      (infos : List (ValidatedPair F))
      → All P infos
      → AllOf (IsChosen P test) (select_from np config close split infos (map test infos))
  unfolding select_from
  select_from-AllOf P test [] all = tt
  select_from-AllOf P test (info ∷ infos) (h, hs) =
      let rest = select_from-AllOf P test infos hs in
      maybe-cases (AllOf (IsChosen P test)) (is_selected np config close split info (test info))
        (λ _. tt)
        (λ chosen passed.
          maybe-cases (AllOf (IsChosen P test))
            (select_from np config close split infos (map test infos)) (λ _. tt)
            (λ selected found.
              join chosen selected
                (subst (Passes (test info) info) passed (is_selected-Passes info (test info)))
                (subst (AllOf (IsChosen P test)) found rest)))
    where
      join :
          (chosen : Bool) (selected : List (ValidatedPair F))
          → Passes (test info) info (some chosen)
          → All (IsChosen P test) selected
          → All (IsChosen P test) (if chosen then info ∷ selected else selected)
      join true selected (ok, good, held) rest = ((h, ok, good, held), rest)
      join false selected passed rest = rest

  abbrev Names : String × String → Option (ValidatedPair F) → Type 0
  Names pair none = Unit
  Names pair (some info) = (info.y, info.x) ≡ pair

  info_of-Names : (pair : String × String) → Names pair (info_of np config close split pair)
  unfolding info_of
  info_of-Names (a, b) =
      maybe-cases (Names (a, b)) (lookup a close) (λ _. tt)
        λ ca _.
          maybe-cases (Names (a, b)) (lookup b close) (λ _. tt)
            λ cb _.
              maybe-cases (Names (a, b)) (engle_granger np (iloc_to split ca) (iloc_to split cb))
                (λ _. tt)
                λ (hedge, intercept, pvalue) _.
                  maybe-cases (Names (a, b))
                    (training_fit np config hedge intercept (iloc_to split ca) (iloc_to split cb))
                    (λ _. tt) λ ou _. refl

  -- An eligible candidate, as fitted to the training rows.
  abbrev pub IsInfo : List (String × String) → Option (List String) → ValidatedPair F → Type 0
  IsInfo candidates ssf_eligible info =
      Memᴰ (info.y, info.x) candidates
      × (is_eligible ssf_eligible (info.y, info.x) ≡ true)
      × (info_of np config close split (info.y, info.x) ≡ some info)

  infos_of-AllOf :
      (candidates : List (String × String)) (ssf_eligible : Option (List String))
      (pairs : List (String × String))
      → All (λ pair. Memᴰ pair candidates × (is_eligible ssf_eligible pair ≡ true)) pairs
      → AllOf (IsInfo candidates ssf_eligible) (infos_of np config close split pairs)
  unfolding infos_of
  infos_of-AllOf candidates ssf_eligible [] all = tt
  infos_of-AllOf candidates ssf_eligible (pair ∷ pairs) ((mem, fit), hs) =
      let P = IsInfo candidates ssf_eligible in
      let rest = infos_of-AllOf candidates ssf_eligible pairs hs in
      maybe-cases (AllOf P) (info_of np config close split pair) (λ _. tt)
        λ info found.
          let named : pair ≡ (info.y, info.x) =
            sym (subst (Names pair) found (info_of-Names pair)) in
          let is_info : P info =
            subst
              (λ (p : String × String).
                Memᴰ p candidates
                × (is_eligible ssf_eligible p ≡ true)
                × (info_of np config close split p ≡ some info))
              named (mem, fit, found) in
          maybe-cases (AllOf P) (infos_of np config close split pairs) (λ _. tt)
            λ infos later. (is_info, subst (AllOf P) later rest)

  eligible_candidates :
      (ssf_eligible : Option (List String)) (candidates : List (String × String))
      → All
          (λ pair. Memᴰ pair candidates × (is_eligible ssf_eligible pair ≡ true))
          (keep (is_eligible ssf_eligible) candidates)
  eligible_candidates ssf_eligible [] = tt
  eligible_candidates ssf_eligible (pair ∷ candidates) =
      let rest =
        All-weaken (λ p (there, fit). (tail there, fit))
          (keep (is_eligible ssf_eligible) candidates)
          (eligible_candidates ssf_eligible candidates) in
      elim (Bool-cases (is_eligible ssf_eligible pair)) [
        | inl fit ↦ rw fit ((head refl, fit), rest)
        | inr unfit ↦ rw unfit rest
      ]

  abbrev pvalues : List (ValidatedPair F) → List F
  pvalues infos = map (λ (info : ValidatedPair F). info.pvalue) infos

  map-pvalues :
      (f : F → Bool) (infos : List (ValidatedPair F))
      → map f (pvalues infos) ≡ map (λ (info : ValidatedPair F). f info.pvalue) infos
  map-pvalues f [] = refl
  map-pvalues f (info ∷ infos) = ap (λ bits. f info.pvalue ∷ bits) (map-pvalues f infos)

module _ {F : Type 0} ⦃d : Float F⦄ (np : Statistics F) (config : PairConfig F) where
  -- Where the training fits succeed and no p-value is NaN, every pair that is selected is an
  -- eligible candidate with the fit of its training rows; its p-value is rejected by the step-up rule
  -- among those of all eligible candidates; and it reverts with a half-life within the limits, in the
  -- training rows and in the held-out rows, of which there are at least 20 spreads.
  pub select_pairs-AllOf :
      IsOrdered F
      → (candidates : List (String × String)) (n : ℕ) (close : Dict (List F))
        (ssf_eligible : Option (List String)) (split : ℤ) (infos : List (ValidatedPair F))
      → d.to_int (of_int (pos n) * config.train_frac) ≡ some split
      → infos_of np config close split (keep (is_eligible ssf_eligible) candidates) ≡ some infos
      → IsAscending (np.sort (pvalues np config close split infos))
      → let ps = pvalues np config close split infos in
        AllOf np config close split
          (λ info.
            IsInfo np config close split candidates ssf_eligible info
            × (is_rejected (length ps) config.cointegration_pvalue 1 (np.sort ps) info.pvalue
                ≡ true)
            × (is_tradable np config info.ou ≡ true)
            × IsHeldOut np config close split info)
          (select_pairs np config candidates n close ssf_eligible)
  unfolding select_pairs
  select_pairs-AllOf order candidates n close ssf_eligible split infos at_split fitted ascending =
      let P = IsInfo np config close split candidates ssf_eligible in
      let ps = pvalues np config close split infos in
      let rule = is_rejected (length ps) config.cointegration_pvalue 1 (np.sort ps) in
      let all : All P infos = subst (AllOf np config close split P) fitted (
        infos_of-AllOf np config close split candidates ssf_eligible
          (keep (is_eligible ssf_eligible) candidates)
          (eligible_candidates np config close split ssf_eligible candidates)) in
      rw at_split (
        rw fitted (
          rw (benjamini_hochberg_lem order np ps config.cointegration_pvalue ascending) (
            rw (map-pvalues np config close split rule infos) (
              select_from-AllOf np config close split P
                (λ (info : ValidatedPair F). rule info.pvalue) infos all))))
