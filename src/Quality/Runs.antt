-- ===== src/Quality/Runs.antt =====
-- `_stale_runs` against the runs of equal closes.
use quant_pilot.Base.{
  ℕ, suc, ◌+◌, ◌≡◌, refl, true, false, some, List, [], ◌∷◌, ◌++◌, leb, arith, ◌∙◌, ap, sym,
  if◌then◌else◌, Bool-cases, inl, inr,
}
use mathlib.Core.List.{append_assoc, append-nil}
use quant_pilot.Float.{Float, eq}
use quant_pilot.Quality.{Bar, flush_run, run_loop, stale_runs_of}

-- A run: its first day, its first close, and its length.
abbrev pub Run : Type 0 → Type 0
Run F = record { start : ℕ; close : F; size : ℕ }

module _ {F : Type 0} ⦃d : Float F⦄ where
  -- A run before runs: one with the first of them if that begins with the close that this one ends
  -- with.
  unfoldable pub join : ℕ → F → ℕ → List (Run F) → List (Run F)
  join start last size [] = record { start = start; close = last; size = size } ∷ []
  join start last size (r ∷ rs) =
      if eq r.close last
      then record { start = start; close = last; size = size + r.size } ∷ rs
      else record { start = start; close = last; size = size } ∷ r ∷ rs

  -- The maximal runs of consecutive equal closes.
  unfoldable pub runs_of : List (Bar F) → List (Run F)
  runs_of [] = []
  runs_of (b ∷ bs) = join b.date b.close 1 (runs_of bs)

  -- The first day and the length of each run that reaches the limit.
  unfoldable pub long_runs : ℕ → List (Run F) → List (ℕ × ℕ)
  long_runs limit [] = []
  long_runs limit (r ∷ rs) =
      if leb limit r.size then (r.start, r.size) ∷ long_runs limit rs else long_runs limit rs

  -- Only the length and the start of the first run count.
  long_runs-join :
      (limit start size : ℕ) (p : F) (b : Bar F) (rs : List (Run F))
      → eq b.close p ≡ true
      → long_runs limit (join start p size (join b.date b.close 1 rs))
        ≡ long_runs limit (join start b.close (suc size) rs)
  unfolding long_runs join
  long_runs-join limit start size p b [] same = ground arith
  long_runs-join limit start size p b (r ∷ rs) same = ground arith

  long_runs-join_new :
      (limit start size : ℕ) (p : F) (b : Bar F) (rs : List (Run F)) (runs : List (ℕ × ℕ))
      → eq b.close p ≡ false
      → runs ++ long_runs limit (join start p size (join b.date b.close 1 rs))
        ≡ flush_run limit size (some start) runs ++ long_runs limit (join b.date b.close 1 rs)
  unfolding long_runs join flush_run
  long_runs-join_new limit start size p b [] runs new =
      ground
        (arith, append_assoc runs ((start, size) ∷ []) (long_runs limit (join b.date b.close 1 [])))
  long_runs-join_new limit start size p b (r ∷ rs) runs new = ground (
    arith,
    append_assoc runs ((start, size) ∷ []) (long_runs limit (join b.date b.close 1 (r ∷ rs))),
  )

  run_loop-eq-long_runs :
      (limit size start : ℕ) (p : F) (runs : List (ℕ × ℕ)) (bs : List (Bar F))
      → run_loop limit size (some start) (some p) runs bs
        ≡ runs ++ long_runs limit (join start p size (runs_of bs))
  unfolding run_loop runs_of
  run_loop-eq-long_runs limit size start p runs [] =
      unfold flush_run join long_runs in ground (arith, append-nil runs)
  run_loop-eq-long_runs limit size start p runs (b ∷ bs) = elim (Bool-cases (eq b.close p)) [
    | inl same ↦ rw same (
        run_loop-eq-long_runs limit (suc size) start b.close runs bs
        ∙ ap (λ rs. runs ++ rs) (sym (long_runs-join limit start size p b (runs_of bs) same)))
    | inr new ↦ rw new (
        run_loop-eq-long_runs limit 1 b.date b.close (flush_run limit size (some start) runs) bs
        ∙ sym (long_runs-join_new limit start size p b (runs_of bs) runs new))
  ]

  -- The reported stale runs are just the maximal runs of consecutive equal closes that reach the
  -- limit, each with its first day and its length, in order.
  pub stale_runs_of-eq-long_runs :
      (bars : List (Bar F)) (limit : ℕ) → stale_runs_of bars limit ≡ long_runs limit (runs_of bars)
  unfolding stale_runs_of run_loop flush_run long_runs runs_of
  stale_runs_of-eq-long_runs [] limit = refl
  stale_runs_of-eq-long_runs (b ∷ bs) limit = run_loop-eq-long_runs limit 1 b.date b.close [] bs
