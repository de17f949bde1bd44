-- ===== src/Quality.antt =====
-- src/quant_pilot/engine/data/quality.py and corporate_actions.py: the checks that quarantine a
-- symbol. A bar is its date (a day number), its close and its volume. The median volume is pandas'
-- `median`, a parameter.
pub mod Runs
pub mod Report
mod Tests
use quant_pilot.Base.{
  ℕ, suc, ◌+◌, ◌-◌, Bool, true, false, not, ◌&&◌, ◌||◌, Option, none, some, List, [], ◌∷◌, ◌++◌,
  leb, ◌==◌, map, keep, any, is_empty, length, maybe, if◌then◌else◌,
}
use quant_pilot.Float.{Float, ◌*◌, abs, nought, lt, le, eq}

pub record Bar (F : Type 0) : Type 0 where
  pub date : ℕ
  pub close : F
  pub volume : F

pub record QualityReport : Type 0 where
  pub ok : Bool
  pub n_rows : ℕ
  pub missing_sessions : List ℕ
  pub stale_runs : List (ℕ × ℕ)
  pub nonpositive : List ℕ
  pub zero_volume : List ℕ
  pub volume_spikes : List ℕ

-- `run_start is not None and run_len >= stale_limit`, and the append
unfoldable pub flush_run : ℕ → ℕ → Option ℕ → List (ℕ × ℕ) → List (ℕ × ℕ)
flush_run limit run_len run_start runs =
    maybe run_start runs λ start. if leb limit run_len then runs ++ (start, run_len) ∷ [] else runs

-- `day in present`
abbrev pub is_in : List ℕ → ℕ → Bool
is_in days day = any (λ e. e == day) days

-- `sorted(expected_sessions - present)`, of a set that is given in ascending order; without a set,
-- or with an empty one, nothing is missing.
abbrev pub missing_of : Option (List ℕ) → List ℕ → List ℕ
missing_of none present = []
missing_of (some expected) present = keep (λ day. not (is_in present day)) expected

module _ {F : Type 0} ⦃d : Float F⦄ where
  -- The loop of `_stale_runs`, over its variables `run_len`, `run_start`, `prev` and `runs`.
  unfoldable pub run_loop : ℕ → ℕ → Option ℕ → Option F → List (ℕ × ℕ) → List (Bar F) → List (ℕ × ℕ)
  run_loop limit run_len run_start prev runs [] = flush_run limit run_len run_start runs
  run_loop limit run_len run_start prev runs (b ∷ bs) =
      let longer = run_loop limit (suc run_len) run_start (some b.close) runs bs in
      let fresh =
        run_loop limit 1 (some b.date) (some b.close) (flush_run limit run_len run_start runs) bs in
      if maybe prev false (λ p. eq b.close p) then longer else fresh

  unfoldable pub stale_runs_of : List (Bar F) → ℕ → List (ℕ × ℕ)
  stale_runs_of bars stale_limit = run_loop stale_limit 0 none none [] bars

  abbrev pub dates : List (Bar F) → List ℕ
  dates = map (λ b. b.date)

  abbrev pub is_spike : F → F → F → Bool
  is_spike median spike_factor v = lt nought median && lt (spike_factor * median) v

  -- `check_quality`, with the median of the positive volumes as a function of them
  unfoldable pub check_quality :
      (List F → F) → List (Bar F) → Option (List ℕ) → ℕ → F → QualityReport
  check_quality median bars expected_sessions stale_limit spike_factor =
      let missing = missing_of expected_sessions (dates bars) in
      let nonpositive = dates (keep (λ b. le b.close nought) bars) in
      let stale = stale_runs_of bars stale_limit in
      let positive_volumes : List F = keep (λ v. lt nought v) (map (λ b. b.volume) bars) in
      let median_volume = if is_empty positive_volumes then nought else median positive_volumes in
      record {
        ok = is_empty missing && is_empty nonpositive && is_empty stale;
        n_rows = length bars;
        missing_sessions = missing;
        stale_runs = stale;
        nonpositive = nonpositive;
        zero_volume = dates (keep (λ b. eq b.volume nought) bars);
        volume_spikes = dates (keep (λ b. is_spike median_volume spike_factor b.volume) bars);
      }

-- `_near`: within `tol_days` of a known action
unfoldable pub near : ℕ → List ℕ → ℕ → Bool
near day known tol_days = any (λ k. leb (day - k) tol_days && leb (k - day) tol_days) known

pub record CorpActionReport : Type 0 where
  pub ok : Bool
  pub unexplained_jumps : List ℕ
  pub bad_adjustments : List ℕ

-- `verify_adjustments` from the days of the jumps on; the returns are pandas' `pct_change`.
unfoldable pub report_jumps : List ℕ → List ℕ → CorpActionReport
report_jumps jumps known =
    let unexplained = keep (λ day. not (near day known 1)) jumps in
    let bad = keep (λ day. near day known 1) jumps in
    record {
      ok = is_empty unexplained && is_empty bad;
      unexplained_jumps = unexplained;
      bad_adjustments = bad;
    }

module _ {F : Type 0} ⦃d : Float F⦄ (pct_change : List (ℕ × F) → List (ℕ × F)) where
  -- The days on which the adjusted close moves by more than the threshold; NaN is no move.
  unfoldable pub jumps_of : List (ℕ × F) → F → List ℕ
  jumps_of adj jump_threshold =
      map (λ r. r.0)
        (keep (λ (_, value). eq value value && lt jump_threshold value)
          (map (λ (ts, value). (ts, abs value)) (pct_change adj)))

  unfoldable pub verify_adjustments : List (ℕ × F) → List ℕ → F → CorpActionReport
  verify_adjustments adj known_actions jump_threshold =
      report_jumps (jumps_of adj jump_threshold) known_actions
