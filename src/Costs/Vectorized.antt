-- ===== src/Costs/Vectorized.antt =====
-- `total_costs_vec`, the form of the cost model that the backtest engine calls, against the scalar
-- `compute_costs`.
use quant_pilot.Base.{◌≡◌, true, not, refl, List, [], ◌∷◌, arith, if◌then◌else◌}
use quant_pilot.Domain.{OrderSide, buy, sell}
use quant_pilot.Float.{Float, IsOrdered, IsNumber, ◌*◌, abs, nought, lt, le, min}
use quant_pilot.Costs.{Segment, CostConfig, delivery, intraday, compute_costs, total_cost}

module _ {F : Type 0} ⦃d : Float F⦄ where
  -- The side that a signed quantity stands for.
  abbrev pub side_of : F → OrderSide
  side_of quantity = if lt nought quantity then buy else sell

  -- The arrays have one length; numpy raises otherwise, and the model stops at the shorter.
  unfoldable pub total_costs_vec : (F → F → F) → List F → List F → CostConfig F → Segment → List F
  unfolding total_cost
  total_costs_vec minimum (p ∷ prices) (q ∷ quantities) config segment =
      total_cost minimum config segment p q
      ∷ total_costs_vec minimum prices quantities config segment
  total_costs_vec minimum _ _ config segment = []

  -- `[compute_costs(...).total for ...]`
  unfoldable pub scalar_totals : List F → List F → CostConfig F → Segment → List F
  scalar_totals (p ∷ prices) (q ∷ quantities) config segment =
      (compute_costs (side_of q) p q config segment).total
      ∷ scalar_totals prices quantities config segment
  scalar_totals _ _ config segment = []

  -- What is asked of each trade: its turnover and its proportional fee are numbers, and the
  -- turnover is not negative.
  abbrev pub IsPriced : CostConfig F → List F → List F → Type 0
  IsPriced config (p ∷ prices) (q ∷ quantities) =
      (le nought (p * abs q) ≡ true)
      × IsNumber (config.brokerage_pct * (p * abs q))
      × IsPriced config prices quantities
  IsPriced config _ _ = Unit

module _ {F : Type 0} ⦃d : Float F⦄ (order : IsOrdered F) (minimum : F → F → F)
    (minimum-eq-min : (x y : F) → IsNumber x → IsNumber y → minimum x y ≡ min x y) where
  -- On a turnover that is zero or more, `turnover > 0` and `if turnover` are one test.
  lt-eq-truthy :
      (turnover : F) → le nought turnover ≡ true → lt nought turnover ≡ not (d.eq turnover nought)
  lt-eq-truthy turnover h =
      let (n, m) = order.numbers_of_le nought turnover h in
      ground (arith, order.lt-not_le nought turnover n m, order.eq-le_le turnover nought)

  total_cost-eq-total :
      (config : CostConfig F) (segment : Segment) (p q : F)
      → IsNumber config.flat_fee_per_order
      → IsNumber (config.brokerage_pct * (p * abs q))
      → le nought (p * abs q) ≡ true
      → total_cost minimum config segment p q ≡ (compute_costs (side_of q) p q config segment).total
  unfolding total_cost compute_costs
  total_cost-eq-total config delivery p q flat fee h = ground (
    arith,
    lt-eq-truthy (p * abs q) h,
    minimum-eq-min config.flat_fee_per_order (config.brokerage_pct * (p * abs q)) flat fee,
  )
  total_cost-eq-total config intraday p q flat fee h = ground (
    arith,
    lt-eq-truthy (p * abs q) h,
    minimum-eq-min config.flat_fee_per_order (config.brokerage_pct * (p * abs q)) flat fee,
  )

  -- The vectorized costs are, element by element, the totals of the scalar breakdown with the side
  -- read off the sign of the quantity: where `np.minimum` is the minimum of two numbers, the flat
  -- fee is a number, and each turnover is a number of zero or more with a proportional fee that is
  -- a number.
  pub total_costs_vec-eq-scalar_totals :
      (config : CostConfig F) (segment : Segment) (prices quantities : List F)
      → IsNumber config.flat_fee_per_order
      → IsPriced config prices quantities
      → total_costs_vec minimum prices quantities config segment
        ≡ scalar_totals prices quantities config segment
  unfolding total_costs_vec scalar_totals
  total_costs_vec-eq-scalar_totals config segment [] quantities flat h = refl
  total_costs_vec-eq-scalar_totals config segment (p ∷ prices) [] flat h = refl
  total_costs_vec-eq-scalar_totals config segment (p ∷ prices) (q ∷ quantities) flat (t, fee, h) =
      cc (
        total_cost-eq-total config segment p q flat fee t,
        total_costs_vec-eq-scalar_totals config segment prices quantities flat h,
      )
