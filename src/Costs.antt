-- ===== src/Costs.antt =====
-- src/quant_pilot/engine/backtest/costs.py: the explicit transaction costs of an order, in the
-- scalar form and in the form that the engine maps over arrays. An array is a list, and a numpy
-- operation on arrays is the map of its elementwise operation; `np.minimum` is a parameter.
pub mod Vectorized
mod Tests
use quant_pilot.Base.{Bool, true, false, if◌then◌else◌}
use quant_pilot.Domain.{OrderSide}
use quant_pilot.Float.{Float, ◌+◌, ◌*◌, ◌/◌, abs, literal, nought, lt, min, truthy}

pub data Segment : Type 0 where
  delivery intraday : Segment

pub record CostConfig (F : Type 0) : Type 0 where
  pub flat_fee_per_order : F
  pub brokerage_pct : F
  pub stt_delivery : F
  pub stt_intraday_sell : F
  pub exchange_charges_nse : F
  pub gst : F
  pub sebi_charges_per_cr : F
  pub stamp_duty_buy : F

pub record CostBreakdown (F : Type 0) : Type 0 where
  pub brokerage : F
  pub stt : F
  pub exchange : F
  pub gst : F
  pub sebi : F
  pub stamp : F
  pub total : F

-- `side == "buy"`
abbrev pub is_buy : OrderSide → Bool
is_buy OrderSide.buy = true
is_buy OrderSide.sell = false

module _ {F : Type 0} ⦃d : Float F⦄ where
  -- The field defaults of `CostConfig`.
  abbrev pub default_costs : CostConfig F
  default_costs = record {
    flat_fee_per_order = literal 20 0;
    brokerage_pct = literal 3 4;
    stt_delivery = literal 1 3;
    stt_intraday_sell = literal 25 5;
    exchange_charges_nse = literal 335 7;
    gst = literal 18 2;
    sebi_charges_per_cr = literal 10 0;
    stamp_duty_buy = literal 15 5;
  }

  abbrev pub crore : F
  crore = literal 10_000_000 0

  -- The securities transaction tax: on both sides of a delivery, on the sale of an intraday trade.
  unfoldable pub transaction_tax : Segment → Bool → CostConfig F → F → F
  transaction_tax Segment.delivery buying config turnover = config.stt_delivery * turnover
  transaction_tax Segment.intraday buying config turnover =
      if buying then nought else config.stt_intraday_sell * turnover

  unfoldable pub compute_costs : OrderSide → F → F → CostConfig F → Segment → CostBreakdown F
  unfolding transaction_tax
  compute_costs side price quantity config segment =
      let turnover = price * abs quantity in
      let brokerage =
        if truthy turnover
        then min config.flat_fee_per_order (config.brokerage_pct * turnover)
        else nought in
      let exchange = config.exchange_charges_nse * turnover in
      let stt = transaction_tax segment (is_buy side) config turnover in
      let gst = config.gst * (brokerage + exchange) in
      let sebi = config.sebi_charges_per_cr / crore * turnover in
      let stamp = if is_buy side then config.stamp_duty_buy * turnover else nought in
      record {
        brokerage = brokerage;
        stt = stt;
        exchange = exchange;
        gst = gst;
        sebi = sebi;
        stamp = stamp;
        total = brokerage + stt + exchange + gst + sebi + stamp;
      }

  -- One element of `total_costs_vec`, with `np.minimum` as an argument. Quantities are signed.
  unfoldable pub total_cost : (F → F → F) → CostConfig F → Segment → F → F → F
  unfolding transaction_tax
  total_cost minimum config segment price quantity =
      let turnover = price * abs quantity in
      let has_trade = lt nought turnover in
      let buying = lt nought quantity in
      let brokerage =
        if has_trade
        then minimum config.flat_fee_per_order (config.brokerage_pct * turnover)
        else nought in
      let exchange = config.exchange_charges_nse * turnover in
      let stt = transaction_tax segment buying config turnover in
      let gst = config.gst * (brokerage + exchange) in
      let sebi = config.sebi_charges_per_cr / crore * turnover in
      let stamp = if buying then config.stamp_duty_buy * turnover else nought in
      brokerage + stt + exchange + gst + sebi + stamp
