-- ===== src/Analysis/Drawdowns.antt =====
-- `_max_drawdown_days` of src/quant_pilot/engine/analysis/performance.py counts the longest stretch
-- below zero.
use quant_pilot.Base.{
  ℕ, suc, ◌+◌, ◌≤◌, ◌≡◌, true, List, [], ◌∷◌, ◌++◌, length, ltb, arith, All, if◌then◌else◌,
}
use quant_pilot.Float.{Float, lt, nought}
use quant_pilot.Analysis.{days_from, max_drawdown_days}

module _ {F : Type 0} ⦃d : Float F⦄ where
  abbrev pub IsBelow : F → Type 0
  IsBelow v = lt v nought ≡ true

  days_from_longest : (longest current : ℕ) (dd : List F) → longest ≤ days_from longest current dd
  unfolding days_from
  days_from_longest longest current [] = ground arith
  days_from_longest longest current (v ∷ dd) =
      let current' = if lt v nought then suc current else 0 in
      let longest' = if ltb longest current' then current' else longest in
      ground (arith, days_from_longest longest' current' dd)

  days_from_stretch :
      (longest current : ℕ) (stretch rest : List F)
      → current ≤ longest
      → All IsBelow stretch
      → current + length stretch ≤ days_from longest current (stretch ++ rest)
  unfolding days_from
  days_from_stretch longest current [] rest within below =
      ground (arith, days_from_longest longest current rest)
  days_from_stretch longest current (v ∷ stretch) rest within (low, below) =
      let longest' = if ltb longest (suc current) then suc current else longest in
      ground
        (arith, low, days_from_stretch longest' (suc current) stretch rest (ground arith) below)

  days_from-append :
      (longest current : ℕ) (before stretch rest : List F)
      → current ≤ longest
      → All IsBelow stretch
      → length stretch ≤ days_from longest current (before ++ stretch ++ rest)
  unfolding days_from
  days_from-append longest current [] stretch rest within below =
      ground (arith, days_from_stretch longest current stretch rest within below)
  days_from-append longest current (v ∷ before) stretch rest within below =
      let current' = if lt v nought then suc current else 0 in
      let longest' = if ltb longest current' then current' else longest in
      days_from-append longest' current' before stretch rest (ground arith) below

  -- No stretch of days in drawdown is longer than what is reported.
  max_drawdown_days-append :
      (before stretch rest : List F)
      → All IsBelow stretch
      → length stretch ≤ max_drawdown_days (before ++ stretch ++ rest)
  unfolding max_drawdown_days
  max_drawdown_days-append before stretch rest below =
      days_from-append 0 0 before stretch rest (ground arith) below
