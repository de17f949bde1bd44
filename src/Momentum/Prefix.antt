-- ===== src/Momentum/Prefix.antt =====
-- The momentum weights of a price history are the first ones of each of its continuations.
use quant_pilot.Base.{
  ℕ, ◌≤◌, ◌<◌, String, ◌≡◌, refl, sym, ap, ◌∙◌, Option, none, some, List, [], ◌∷◌, ◌++◌, map, any,
  ◌==◌, if◌then◌else◌, arith, All, Bool-cases, if-cases, IsSome, IsSome-value, is_empty, length,
  inl, inr,
}
use quant_pilot.Float.{Float, lt, nought}
use quant_pilot.Momentum.{
  MomentumConfig, Row, Eligibility, Pandas, upto, scores_of, target_row, n_select, apply_band,
  weights_from, rebalance_dates, generate_weights,
}
use quant_pilot.Momentum.Causal.{weights_from-upto}

-- Rows up to a date, and rows after it.
abbrev pub IsPast : {A : Type 0} → ℕ → List (ℕ × A) → Type 0
IsPast now rows = All (λ r. r.0 ≤ now) rows

abbrev pub IsFuture : {A : Type 0} → ℕ → List (ℕ × A) → Type 0
IsFuture now rows = All (λ r. now < r.0) rows

upto-append :
    {A : Type 0} (now : ℕ) (past later : List (ℕ × A))
    → IsPast now past
    → IsFuture now later
    → upto now (past ++ later) ≡ past
upto-append now [] [] hp hl = refl
upto-append now [] (r ∷ later) hp (h, hl) = ground (arith, h, upto-append now [] later tt hl)
upto-append now (r ∷ past) later (h, hp) hl = ground (arith, h, upto-append now past later hp hl)

module _ {F : Type 0} ⦃d : Float F⦄ (pd : Pandas F) (config : MomentumConfig F)
    (symbols : List String) where
  -- The months that were seen after some dates.
  abbrev seen_after : List ℕ → List ℕ → List ℕ
  seen_after seen [] = seen
  seen_after seen (t ∷ index) = seen_after (pd.month_of t ∷ seen) index

  rebalance_dates-append :
      (seen index later : List ℕ)
      → rebalance_dates pd config symbols seen (index ++ later)
        ≡ rebalance_dates pd config symbols seen index
          ++ rebalance_dates pd config symbols (seen_after seen index) later
  unfolding rebalance_dates
  rebalance_dates-append seen [] later = refl
  rebalance_dates-append seen (t ∷ index) later =
      ground (arith, rebalance_dates-append (pd.month_of t ∷ seen) index later)

  rebalance_dates-All :
      (P : ℕ → Type 0) (seen index : List ℕ)
      → All P index
      → All P (rebalance_dates pd config symbols seen index)
  unfolding rebalance_dates
  rebalance_dates-All P seen [] h = tt
  rebalance_dates-All P seen (t ∷ index) (h, hs) =
      let rest = rebalance_dates-All P (pd.month_of t ∷ seen) index hs in
      elim (Bool-cases (any (λ m. m == pd.month_of t) seen)) [
        | inl old ↦ rw old rest
        | inr new ↦ rw new (h, rest)
      ]

  module _ (selects : (n : ℕ) → (k : ℕ) × (n_select pd config symbols n ≡ some k)) where
    target_row-IsSome :
        (close : List (ℕ × Row F)) (membership : Option Eligibility) (vrp : Option (List (ℕ × F)))
        (t : ℕ)
        → IsSome (target_row pd config symbols close membership vrp t)
    unfolding target_row
    target_row-IsSome close membership vrp t =
        let score = scores_of pd config symbols close membership t in
        if-cases IsSome (is_empty score) (λ _. tt)
          (λ _. let (k, chosen) = selects (length score) in rw chosen tt)

    abbrev banded : Row F → Row F → Row F
    banded prev target =
        if lt nought config.turnover_band then apply_band pd config symbols prev target else target

    module _ (close : List (ℕ × Row F)) (membership : Option Eligibility)
        (vrp : Option (List (ℕ × F))) where
      abbrev weights : Row F → List ℕ → Option (List (ℕ × Row F))
      weights prev ts = weights_from pd config symbols close membership vrp prev ts

      weights-exist :
          (P : ℕ → Type 0) (prev : Row F) (ts : List ℕ)
          → All P ts
          → (w : List (ℕ × Row F)) × (weights prev ts ≡ some w) × All (λ r. P r.0) w
      unfolding weights_from
      weights-exist P prev [] h = ([], refl, tt)
      weights-exist P prev (t ∷ ts) (h, hs) =
          let (target, found) =
            IsSome-value (target_row pd config symbols close membership vrp t)
              (target_row-IsSome close membership vrp t) in
          let (w, made, good) = weights-exist P (banded prev target) ts hs in
          ((t, banded prev target) ∷ w, rw found (rw made refl), (h, good))

      -- The weights of earlier rebalance dates do not depend on the dates after them.
      weights-append :
          (P : ℕ → Type 0) (prev : Row F) (early late : List ℕ)
          → All P late
          → (w : List (ℕ × Row F)) × (rest : List (ℕ × Row F)) × (weights prev early ≡ some w)
            × (weights prev (early ++ late) ≡ some (w ++ rest))
            × All (λ r. P r.0) rest
      unfolding weights_from
      weights-append P prev [] late h =
          let (rest, made, good) = weights-exist P prev late h in ([], rest, refl, made, good)
      weights-append P prev (t ∷ early) late h =
          let (target, found) =
            IsSome-value (target_row pd config symbols close membership vrp t)
              (target_row-IsSome close membership vrp t) in
          let (w, rest, first, both, good) = weights-append P (banded prev target) early late h in
          (
            (t, banded prev target) ∷ w,
            rest,
            rw found (rw first refl),
            rw found (rw both refl),
            good,
          )

dates-append :
    {A : Type 0} (past later : List (ℕ × A))
    → map (λ r. r.0) (past ++ later) ≡ map (λ r. r.0) past ++ map (λ r. r.0) later
dates-append [] later = refl
dates-append (r ∷ past) later = ap (λ ts. r.0 ∷ ts) (dates-append past later)

dates-All :
    {A : Type 0} (P : ℕ → Type 0) (rows : List (ℕ × A))
    → All (λ r. P r.0) rows
    → All P (map (λ r. r.0) rows)
dates-All P [] h = tt
dates-All P (r ∷ rows) (h, hs) = (h, dates-All P rows hs)

module _ {F : Type 0} ⦃d : Float F⦄ (pd : Pandas F) (config : MomentumConfig F)
    (symbols : List String) (months_back : (t n : ℕ) → pd.months_before t n ≤ t)
    (selects : (n : ℕ) → (k : ℕ) × (n_select pd config symbols n ≡ some k)) where
  -- The weights of a history of closes exist, and closes on later dates only add weights on later
  -- dates to them. The date some months back is not later, and the number of names to select exists.
  pub generate_weights-append :
      (now : ℕ) (past later : List (ℕ × Row F)) (membership : Option Eligibility)
      → IsPast now past
      → IsFuture now later
      → (w : List (ℕ × Row F)) × (rest : List (ℕ × Row F)) × (generate_weights pd config symbols
            past membership none
          ≡ some w)
        × (generate_weights pd config symbols (past ++ later) membership none ≡ some (w ++ rest))
        × IsFuture now rest
  unfolding generate_weights
  generate_weights-append now past later membership hp hl =
      let early = rebalance_dates pd config symbols [] (map (λ r. r.0) past) in
      let seen = seen_after pd config symbols [] (map (λ r. r.0) past) in
      let late = rebalance_dates pd config symbols seen (map (λ r. r.0) later) in
      let dates : rebalance_dates pd config symbols [] (map (λ r. r.0) (past ++ later))
          ≡ early ++ late =
        ap (rebalance_dates pd config symbols []) (dates-append past later)
        ∙ rebalance_dates-append pd config symbols [] (map (λ r. r.0) past)
            (map (λ r. r.0) later) in
      let (w, rest, first, both, good) =
        weights-append pd config symbols selects (past ++ later) membership none (λ t. now < t)
          (λ s. nought) early late
          (rebalance_dates-All pd config symbols (λ t. now < t) seen (map (λ r. r.0) later)
            (dates-All (λ t. now < t) later hl)) in
      let known : weights_from pd config symbols past membership none (λ s. nought) early ≡ some w =
        ap (λ close. weights_from pd config symbols close membership none (λ s. nought) early)
          (sym (upto-append now past later hp hl))
        ∙ weights_from-upto pd config symbols months_back now (past ++ later) membership none
            (λ s. nought) early
            (rebalance_dates-All pd config symbols (λ t. t ≤ now) [] (map (λ r. r.0) past)
              (dates-All (λ t. t ≤ now) past hp))
        ∙ first in
      (w, rest, known, rw dates both, good)
