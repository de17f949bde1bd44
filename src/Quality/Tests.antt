-- ===== src/Quality/Tests.antt =====
-- Six bars with a run of three equal closes.
use quant_pilot.Base.{ℕ, ◌≡◌, List, [], ◌∷◌}
use quant_pilot.Base.Int.{ℤ, pos}
use quant_pilot.Float.Fixed.{fixed}
use quant_pilot.Quality.{Bar, stale_runs_of}
use quant_pilot.Quality.Runs.{runs_of, long_runs, join, stale_runs_of-eq-long_runs}

abbrev bar : ℕ → ℕ → Bar ℤ
bar date close = record { date = date; close = pos close; volume = pos 5 }

abbrev bars : List (Bar ℤ)
bars = bar 1 10 ∷ bar 2 10 ∷ bar 3 11 ∷ bar 4 11 ∷ bar 5 11 ∷ bar 6 10 ∷ []

stale_runs_of-eq-long_runs_example : stale_runs_of bars 3 ≡ (3, 3) ∷ []
unfolding long_runs runs_of join
stale_runs_of-eq-long_runs_example = stale_runs_of-eq-long_runs bars 3
