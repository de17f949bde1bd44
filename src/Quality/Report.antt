-- ===== src/Quality/Report.antt =====
-- When a symbol passes the checks.
use quant_pilot.Base.{
  ℕ, ◌+◌, ◌<◌, ◌⊎◌, ◌≡◌, ◌↔◌, refl, Bool, true, false, not, ◌&&◌, some, List, [], ◌∷◌, arith, keep,
  is_empty, All, length, Bool-cases, inl, inr,
}
use quant_pilot.Float.{Float, nought, le}
use quant_pilot.Quality.{Bar, check_quality, dates, is_in, report_jumps, near}
use quant_pilot.Quality.Runs.{Run, runs_of, long_runs, stale_runs_of-eq-long_runs}

module _ {ℓ} {A : Type ℓ} where
  is_empty-keep :
      (p : A → Bool) (xs : List A) → (is_empty (keep p xs) ≡ true) ↔ All (λ x. p x ≡ false) xs
  is_empty-keep p [] = ground arith
  is_empty-keep p (x ∷ xs) = ground (arith, is_empty-keep p xs)

  -- The negation of a test fails where the test passes.
  All-not :
      (p : A → Bool) (xs : List A) → All (λ x. not (p x) ≡ false) xs ↔ All (λ x. p x ≡ true) xs
  All-not p [] = ground arith
  All-not p (x ∷ xs) = ground (arith, All-not p xs)

module _ {F : Type 0} ⦃d : Float F⦄ where
  is_empty-dates : (bs : List (Bar F)) → is_empty (dates bs) ≡ is_empty bs
  is_empty-dates [] = refl
  is_empty-dates (b ∷ bs) = refl

  is_empty-long_runs :
      (limit : ℕ) (rs : List (Run F))
      → (is_empty (long_runs limit rs) ≡ true) ↔ All (λ (r : Run F). r.size < limit) rs
  unfolding long_runs
  is_empty-long_runs limit [] = ground arith
  is_empty-long_runs limit (r ∷ rs) = ground (arith, is_empty-long_runs limit rs)

  -- A symbol passes the quality checks just if every expected session is among its dates, no close
  -- is zero or less, and no run of equal closes reaches the limit. Volumes are not asked for.
  pub check_quality-ok_iff :
      (median : List F → F) (bars : List (Bar F)) (expected : List ℕ) (limit : ℕ) (factor : F)
      → ((check_quality median bars (some expected) limit factor).ok ≡ true) ↔ (
          All (λ day. is_in (dates bars) day ≡ true) expected
          × All (λ (b : Bar F). le b.close nought ≡ false) bars
          × All (λ (r : Run F). r.size < limit) (runs_of bars))
  unfolding check_quality
  check_quality-ok_iff median bars expected limit factor = ground (
    arith,
    is_empty-keep (λ day. not (is_in (dates bars) day)) expected,
    All-not (is_in (dates bars)) expected,
    is_empty-dates (keep (λ b. le b.close nought) bars),
    is_empty-keep (λ (b : Bar F). le b.close nought) bars,
    is_empty-long_runs limit (runs_of bars),
    stale_runs_of-eq-long_runs bars limit,
  )

-- More than one day apart.
abbrev pub IsFar : ℕ → List ℕ → Type 0
IsFar day known = All (λ k. (day + 1 < k) ⊎ (k + 1 < day)) known

near-false : (day : ℕ) (known : List ℕ) → near day known 1 ≡ false → IsFar day known
unfolding near
near-false day [] h = tt
near-false day (k ∷ ks) h = ground (arith, near-false day ks)

All-IsFar :
    (known jumps : List ℕ)
    → All (λ day. IsFar day known) (keep (λ day. not (near day known 1)) jumps)
All-IsFar known [] = tt
All-IsFar known (j ∷ js) = elim (Bool-cases (near j known 1)) [
  | inl close ↦ rw close (All-IsFar known js)
  | inr far ↦ rw far (near-false j known far, All-IsFar known js)
]

length-keep_split :
    (p : ℕ → Bool) (xs : List ℕ)
    → length (keep (λ x. not (p x)) xs) + length (keep p xs) ≡ length xs
length-keep_split p [] = omega arith
length-keep_split p (x ∷ xs) = ground (arith, length-keep_split p xs)

is_empty_split :
    (p : ℕ → Bool) (xs : List ℕ)
    → (is_empty (keep (λ x. not (p x)) xs) && is_empty (keep p xs)) ≡ is_empty xs
is_empty_split p [] = refl
is_empty_split p (x ∷ xs) = ground (arith, is_empty_split p xs)

-- An unexplained jump lies more than one day from every known action; the unexplained jumps and the
-- bad adjustments together are as many as the jumps; and the series is accepted just if there is no
-- jump at all, whatever actions are known.
pub report_jumps_lem :
    (jumps known : List ℕ)
    → let report = report_jumps jumps known in
      All (λ day. IsFar day known) report.unexplained_jumps
      × (length report.unexplained_jumps + length report.bad_adjustments ≡ length jumps)
      × (report.ok ≡ is_empty jumps)
unfolding report_jumps
report_jumps_lem jumps known = (
  All-IsFar known jumps,
  length-keep_split (λ day. near day known 1) jumps,
  is_empty_split (λ day. near day known 1) jumps,
)
