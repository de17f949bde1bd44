-- ===== src/PaperBroker/Trading.antt =====
-- The money: what a fill does to cash and positions.
use quant_pilot.Base.{
  String, ◌≡◌, true, false, not, ◌&&◌, none, some, arith, if-cases, maybe-cases, Option-cases,
  Bool-cases, refl, ◌⊎◌, inl, inr, str_eq, eq_iff, if◌then◌else◌,
}
use quant_pilot.Base.Dict.{
  Dict, lookup, HasUniqueKeys, lookup-insert, lookup-remove_ne, lookup-remove_self,
}
use quant_pilot.Costs.{Segment, is_buy, compute_costs}
use quant_pilot.Impact.{compute_impact}
use quant_pilot.Domain.{Order, OrderSide, filled, no_market_price, trading_halted, filled_at}
use quant_pilot.Float.{
  Float, HasSigns, IsFinite, nought, of_int, negate, lt, le, eq, one, ◌+◌, ◌-◌, ◌*◌,
}
use quant_pilot.PaperBroker.{
  PaperBroker, with_broker_id, marketable, fill, place_order, place_at, reject, book_fill,
  fill_price, fill_cost, apply_position, keep_position, position_or, average_price, is_limit,
}
use quant_pilot.PaperBroker.Lifecycle.Placing.{status-reject, place_order-Works}

module _ {F : Type 0} ⦃d : Float F⦄ where
  -- What a buy takes from the cash, or a sale brings.
  abbrev pub charge : PaperBroker F → Order F → F → F
  charge b o mark =
      let price = fill_price b o mark in price * of_int o.quantity + fill_cost b o price

  abbrev pub proceeds : PaperBroker F → Order F → F → F
  proceeds b o mark =
      let price = fill_price b o mark in price * of_int o.quantity - fill_cost b o price

  -- The mark, worsened by the impact fraction of the order: up for a buy, down for a sale.
  abbrev pub worsened_mark : PaperBroker F → Order F → F → F
  worsened_mark b o mark =
      let frac =
        (compute_impact (of_int o.quantity) mark nought nought b.impact none).impact_fraction in
      if is_buy o.side then mark * (one + frac) else mark * (one - frac)

  -- The order is no limit order, or has no limit price, or the mark is within it: not above the
  -- limit of a buy, not below that of a sale.
  abbrev pub WithinLimit : Order F → F → Type 0
  WithinLimit o mark =
      (is_limit o.order_type ≡ false)
      ⊎ ((o.limit_price ≡ none)
          ⊎ ((price : F) × (o.limit_price ≡ some price)
              × ((if is_buy o.side then le mark price else le price mark) ≡ true)))

  -- The books of a fill at a mark.
  pub record Accounts (b : PaperBroker F) (o : Order F) (mark : F) (b' : PaperBroker F)
      (r : Order F) : Type 0 where
    pub priced : fill_price b o mark ≡ worsened_mark b o mark
    pub costed :
        fill_cost b o (fill_price b o mark)
        ≡ (compute_costs o.side
            (worsened_mark b o mark)
            (of_int o.quantity)
            b.cost
            Segment.delivery).total
    pub explained :
        r.reason
        ≡ some (filled_at o.quantity (fill_price b o mark) (fill_cost b o (fill_price b o mark)))
    pub covered : is_buy o.side ≡ true → lt b.cash (charge b o mark) ≡ false
    pub cash_moved :
        b'.cash ≡ (if is_buy o.side then b.cash - charge b o mark else b.cash + proceeds b o mark)
    pub shares_moved :
        b'.positions
        ≡ apply_position b.positions o.symbol
            (if is_buy o.side then of_int o.quantity else negate (of_int o.quantity))
            (fill_price b o mark)

  fill-Accounts :
      (b : PaperBroker F) (o : Order F) (mark : F)
      → let (b', r) = fill b o mark in r.status ≡ filled → Accounts b o mark b' r
  unfolding fill reject book_fill
  fill-Accounts b o mark h = record {
    priced = unfold fill_price in refl;
    costed = unfold fill_price fill_cost in refl;
    explained = ground arith;
    covered = ground arith;
    cash_moved = ground arith;
    shares_moved = ground arith;
  }

  abbrev AtMark : PaperBroker F → Order F → F → PaperBroker F × Order F → Type 0
  AtMark b o mark p =
      p.1.status ≡ filled
      → (le mark nought ≡ false) × WithinLimit o mark × Accounts b o mark p.0 p.1

  marketable-WithinLimit :
      (o : Order F) (mark : F)
      → (is_limit o.order_type && not (marketable o mark)) ≡ false
      → WithinLimit o mark
  unfolding marketable
  marketable-WithinLimit o mark h = elim (Option-cases o.limit_price) [
    | inl missing ↦ inr (inl missing)
    | inr (price, there) ↦ ground (arith, Bool-cases (is_limit o.order_type))
  ]

  place_at-Accounts :
      (b : PaperBroker F) (o : Order F) (mark : F) → AtMark b o mark (place_at b o mark)
  unfolding place_at
  place_at-Accounts b o mark =
      if-cases (AtMark b o mark) (le mark nought) (λ _ h. cc (status-reject b o no_market_price))
        (λ priced.
          if-cases (AtMark b o mark) (is_limit o.order_type && not (marketable o mark)) (λ _ h. cc)
            (λ limited h.
              (priced, marketable-WithinLimit o mark limited, fill-Accounts b o mark h)))

  abbrev Placed : PaperBroker F → Order F → PaperBroker F × Order F → Type 0
  Placed b o p =
      p.1.status ≡ filled
      → (b.halted ≡ false)
        × ((mark : F) × (lookup o.symbol b.marks ≡ some mark)
            × (le mark nought ≡ false)
            × WithinLimit o mark
            × Accounts b o mark p.0 p.1)

  -- A placed order is filled only while trading is not halted, at a mark of its symbol that does not
  -- compare at or below zero (a mark that is no number does not) and, for a limit order, is within the
  -- limit. The price is the mark, raised by the impact for a buy and lowered for a sale, and the
  -- cost is that of a delivery trade at this price. The reason gives the quantity, price and cost; the cash before a buy does not compare below its charge; the
  -- cash moves by the notional and the cost, and the position by the signed quantity.
  pub place_order-Accounts :
      (b : PaperBroker F) (uuid : String) (o : Order F)
      → (place_order b uuid o).1.status ≡ filled
      → let (b', r) = place_order b uuid o in
        (b.halted ≡ false)
        × ((mark : F) × (lookup o.symbol b.marks ≡ some mark)
            × (le mark nought ≡ false)
            × WithinLimit o mark
            × Accounts b (with_broker_id uuid o) mark b' r)
  unfolding place_order
  place_order-Accounts b uuid o =
      let o' = with_broker_id uuid o in
      if-cases (Placed b o') b.halted (λ _ h. cc (status-reject b o' trading_halted))
        (λ running.
          maybe-cases (Placed b o') (lookup o.symbol b.marks)
            (λ _ h. cc (status-reject b o' no_market_price))
            (λ mark found h. (
              running,
              (let (live, within, books) = place_at-Accounts b o' mark h in
                  (mark, found, live, within, books)),
            )))

  Accounts-cash_nonneg :
      HasSigns F
      → (b : PaperBroker F) (o : Order F) (mark : F) (b' : PaperBroker F) (r : Order F)
      → Accounts b o mark b' r
      → o.side ≡ OrderSide.buy
      → IsFinite b.cash
      → IsFinite (charge b o mark)
      → le nought b'.cash ≡ true
  Accounts-cash_nonneg signs b o mark b' r books buying fin charged = ground (
    arith,
    books.covered,
    books.cash_moved,
    signs.sub_nonneg b.cash (charge b o mark) fin charged,
  )

  -- A buy that is placed never takes the cash below zero: the cash and the charge of the order at
  -- its mark are finite, and the cash is zero or more before.
  pub place_order-cash_nonneg :
      HasSigns F
      → (b : PaperBroker F) (uuid : String) (o : Order F) → o.side ≡ OrderSide.buy
      → IsFinite b.cash
      → ((mark : F) → lookup o.symbol b.marks ≡ some mark → IsFinite (charge b o mark))
      → le nought b.cash ≡ true
      → le nought (place_order b uuid o).0.cash ≡ true
  place_order-cash_nonneg signs b uuid o buying fin charged h =
      let (b', r) = place_order b uuid o in
      let w = (place_order-Works b uuid o).0 in
      elim w.still [
        | inl done ↦
            let (_, (mark, found, _, _, books)) = place_order-Accounts b uuid o done in
            Accounts-cash_nonneg signs _ _ _ _ _ books buying fin
              (unfold fill_price fill_cost in charged mark found)
        | inr (same_cash, _) ↦ rw same_cash h
      ]

  -- The shares held of a symbol.
  abbrev pub shares_of : String → Dict (F × F) → F
  shares_of s ps = (position_or (lookup s ps)).0

  -- A trade adds the signed quantity to the shares of its symbol, drops the position when nothing
  -- is left, and moves no other symbol.
  pub shares_of-apply_position :
      (ps : Dict (F × F)) (s j : String) (q price : F)
      → HasUniqueKeys ps
      → let new = shares_of s ps + q in
        lookup j (apply_position ps s q price) ≡ (
          if str_eq s j
          then (if eq new nought
              then none
              else some
                  (new, average_price (shares_of s ps) (position_or (lookup s ps)).1 q price new))
          else lookup j ps)
  unfolding apply_position keep_position
  shares_of-apply_position ps s j q price u =
      let new = shares_of s ps + q in
      ground (
        arith,
        eq_iff s j,
        lookup-remove_self s ps u,
        lookup-remove_ne s j ps,
        lookup-insert s j
            (new, average_price (shares_of s ps) (position_or (lookup s ps)).1 q price new) ps,
      )
