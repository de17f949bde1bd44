-- ===== src/Impact.antt =====
-- src/quant_pilot/engine/backtest/impact.py: market impact of an order and the participation cap.
-- Arrays are lists; `np.minimum`, `np.sign` and `np.nan_to_num` are parameters of one element's
-- computation.
pub mod Cap
mod Tests
use quant_pilot.Base.{Bool, Option, none, some, not, ◌&&◌, ◌||◌, if◌then◌else◌}
use quant_pilot.Float.{Float, ◌+◌, ◌*◌, ◌/◌, abs, literal, nought, one, lt, le, min, truthy}

pub record ImpactConfig (F : Type 0) : Type 0 where
  pub impact_k : F
  pub max_adv_participation : F
  pub slippage_buffer_bps : F
  pub assumed_spread_bps : F

pub record ImpactResult (F : Type 0) : Type 0 where
  pub participation : F
  pub impact_fraction : F
  pub cost : F

module _ {F : Type 0} ⦃d : Float F⦄ where
  -- The field defaults of `ImpactConfig`.
  abbrev pub default_impact : ImpactConfig F
  default_impact = record {
    impact_k = literal 9 1;
    max_adv_participation = literal 10 2;
    slippage_buffer_bps = literal 5 0;
    assumed_spread_bps = nought;
  }

  abbrev pub bps : F
  bps = literal 10_000 0

  -- The given spread, or the configured one.
  abbrev spread_or : Option F → ImpactConfig F → F
  spread_or none config = config.assumed_spread_bps
  spread_or (some s) config = s

  unfoldable pub compute_impact : F → F → F → F → ImpactConfig F → Option F → ImpactResult F
  compute_impact quantity price adv_shares daily_vol config spread_bps =
      let qty = abs quantity in
      let participation =
        if truthy adv_shares && lt nought adv_shares then qty / adv_shares else nought in
      let vol = if truthy daily_vol && d.is_finite daily_vol then daily_vol else nought in
      let temporary = config.impact_k * vol * d.sqrt participation in
      let spread = spread_or spread_bps config / bps * literal 5 1 in
      let slippage = config.slippage_buffer_bps / bps in
      let fraction = temporary + spread + slippage in
      record {
        participation = participation;
        impact_fraction = fraction;
        cost = fraction * qty * price;
      }

  unfoldable pub cap_quantity : F → F → F → F
  cap_quantity desired_qty adv_shares max_participation =
      if not (truthy adv_shares) || le adv_shares nought || not (d.is_finite adv_shares)
      then desired_qty
      else d.copysign (min (abs desired_qty) (max_participation * adv_shares)) desired_qty

  -- One element of `cap_quantity_vec`.
  unfoldable pub cap_element : (F → F → F) → (F → F) → (F → F) → F → F → F → F
  cap_element minimum sign nan_to_num max_participation desired adv_shares =
      let valid = d.is_finite adv_shares && lt nought adv_shares in
      let cap = if valid then max_participation * nan_to_num adv_shares else d.infinity in
      sign desired * minimum (abs desired) cap

  -- One element of `impact_cost_vec`.
  unfoldable pub impact_cost : (F → F) → ImpactConfig F → Option F → F → F → F → F → F
  impact_cost nan_to_num config spread_bps quantity price adv_shares daily_vol =
      let qty = abs quantity in
      let adv_ok = d.is_finite adv_shares && lt nought adv_shares in
      let participation = if adv_ok then qty / (if adv_ok then adv_shares else one) else nought in
      let vol = nan_to_num daily_vol in
      let temporary = config.impact_k * vol * d.sqrt participation in
      let spread = spread_or spread_bps config / bps * literal 5 1 in
      let slippage = config.slippage_buffer_bps / bps in
      let fraction = temporary + spread + slippage in fraction * qty * price
