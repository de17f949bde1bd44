-- ===== src/Live/Slippage.antt =====
-- src/quant_pilot/live/slippage.py: `SlippageMonitor`, and src/quant_pilot/live/pnl.py. numpy's
-- statistics are parameters; `none` is an exception.
use quant_pilot.Base.{
  ℕ, suc, ◌≡◌, refl, Bool, false, not, ◌&&◌, Option, none, some, List, [], ◌∷◌, ◌++◌, map, keep,
  length, ltb, if◌then◌else◌, Bool-cases, inl, inr, ap, sym, ◌∙◌,
}
use quant_pilot.Base.Int.{pos}
use quant_pilot.Domain.{OrderSide}
use quant_pilot.Costs.{is_buy}
use quant_pilot.Float.{Float, ◌+◌, ◌-◌, ◌*◌, ◌/◌, abs, nought, of_int, literal, lt, le, eq, max}

pub record SlippageReport (F : Type 0) : Type 0 where
  pub n : ℕ
  pub mean_bps : F
  pub max_bps : F
  pub flagged : Bool

pub record SlippageMonitor (F : Type 0) : Type 0 where
  pub threshold_bps : F
  pub samples : List F

pub record PnlDivergence (F : Type 0) : Type 0 where
  pub correlation : F
  pub tracking_error : F
  pub max_abs_diff : F
  pub n : ℕ
  pub ok : Bool

-- `std` with `ddof=0` and `ddof=1`, `np.corrcoef(...)[0, 1]` and `max`
pub record Statistics (F : Type 0) : Type 0 where
  pub deviation : List F → F
  pub sample_deviation : List F → F
  pub correlation_of : List F → List F → F
  pub largest : List F → F

module _ {F : Type 0} ⦃d : Float F⦄ where
  unfoldable pub record_fill : SlippageMonitor F → OrderSide → F → F → SlippageMonitor F × F
  record_fill m side expected_price fill_price =
      if le expected_price nought
      then (m, nought)
      else (let bps =
            (if is_buy side then fill_price - expected_price else expected_price - fill_price)
            / expected_price
            * literal 10000 0 in
          (record m { samples = m.samples ++ bps ∷ [] }, bps))

  -- `sum`, which starts at zero and adds from the left
  unfoldable pub sum_from : F → List F → F
  sum_from total [] = total
  sum_from total (x ∷ xs) = sum_from (total + x) xs

  -- `max` of a first sample and the others
  unfoldable pub max_from : F → List F → F
  max_from best [] = best
  max_from best (x ∷ xs) = max_from (max best x) xs

  unfoldable pub report_of : F → List F → SlippageReport F
  report_of threshold [] = record { n = 0; mean_bps = nought; max_bps = nought; flagged = false }
  report_of threshold (x ∷ xs) =
      let n = length (x ∷ xs) in
      let mean = sum_from nought (x ∷ xs) / of_int (pos n) in
      record { n = n; mean_bps = mean; max_bps = max_from x xs; flagged = lt threshold mean }

  unfoldable pub report : SlippageMonitor F → SlippageReport F
  report m = report_of m.threshold_bps m.samples

  abbrev is_nan : F → Bool
  is_nan x = not (eq x x)

  -- The rows are those of both series, by date; `dropna` keeps those without NaN.
  unfoldable pub pnl_divergence : Statistics F → List (F × F) → F → Option (PnlDivergence F)
  pnl_divergence np rows max_tracking_error =
      let df = keep (λ (live, sim). not (is_nan live) && not (is_nan sim)) rows in
      let live = map (λ r. r.0) df in
      let sim = map (λ r. r.1) df in
      let diff = map (λ r. r.0 - r.1) df in
      let te = np.sample_deviation diff in
      if ltb (length df) 2
      then none
      else some (record {
        correlation =
            if lt nought (np.deviation live) && lt nought (np.deviation sim)
            then np.correlation_of live sim
            else nought;
        tracking_error = te;
        max_abs_diff = np.largest (map (λ x. abs x) diff);
        n = length df;
        ok = le te max_tracking_error;
      })

  n-report_of : (threshold : F) (xs : List F) → (report_of threshold xs).n ≡ length xs
  unfolding report_of
  n-report_of threshold [] = refl
  n-report_of threshold (x ∷ xs) = refl

  length-append_one : (xs : List F) (x : F) → length (xs ++ x ∷ []) ≡ suc (length xs)
  length-append_one [] x = refl
  length-append_one (y ∷ xs) x = ap suc (length-append_one xs x)

  -- A fill is counted just if its expected price is above zero or NaN.
  n-record_fill :
      (m : SlippageMonitor F) (side : OrderSide) (expected_price fill_price : F)
      → (report (record_fill m side expected_price fill_price).0).n
        ≡ (if le expected_price nought then (report m).n else suc (report m).n)
  unfolding report record_fill
  n-record_fill m side expected_price fill_price = elim (Bool-cases (le expected_price nought)) [
    | inl unpriced ↦ rw unpriced refl
    | inr priced ↦ rw priced (
        n-report_of m.threshold_bps _
        ∙ length-append_one m.samples _
        ∙ ap suc (sym (n-report_of m.threshold_bps m.samples)))
  ]
