-- ===== src/PaperBroker/Lifecycle/Placing.antt =====
-- What `place_order`, `modify_order` and `cancel_order` return and store.
use quant_pilot.Base.{
  String, ◌≡◌, ◌⊎◌, refl, false, not, ◌&&◌, some, arith, if-cases, maybe-cases, inl, inr, str_eq,
  if◌then◌else◌,
}
use quant_pilot.Base.Dict.{lookup, insert, lookup-insert}
use quant_pilot.Domain.{Order, Reason, filled, pending, rejected}
use quant_pilot.Costs.{is_buy}
use quant_pilot.Float.{Float, nought, le, lt}
use quant_pilot.PaperBroker.{
  PaperBroker, with_broker_id, reject, fill, place_order, marketable, place_at, book_fill, is_limit,
}

module _ {F : Type 0} ⦃d : Float F⦄ where
  -- How a call that began at `b` and worked on `o` has left the broker, with the order `r`.
  pub record Works (b : PaperBroker F) (o : Order F) (b' : PaperBroker F) (r : Order F)
      : Type 0 where
    -- The order that is returned is the one that is stored; no other order is touched.
    pub stored :
        (k : String) → lookup k b'.orders ≡ (if str_eq o.id k then some r else lookup k b.orders)
    pub id_kept : r.id ≡ o.id
    pub symbol_kept : r.symbol ≡ o.symbol
    pub side_kept : r.side ≡ o.side
    pub marks_kept : b'.marks ≡ b.marks
    pub halted_kept : b'.halted ≡ b.halted
    -- Money and shares move only with a fill.
    pub still : (r.status ≡ filled) ⊎ ((b'.cash ≡ b.cash) × (b'.positions ≡ b.positions))

  pub reject-Works :
      (b : PaperBroker F) (o : Order F) (r : Reason F)
      → let (b', o') = reject b o r in Works b o b' o'
  unfolding reject
  reject-Works b o r = record {
    stored = λ k. lookup-insert o.id k _ b.orders;
    id_kept = refl;
    symbol_kept = refl;
    side_kept = refl;
    marks_kept = refl;
    halted_kept = refl;
    still = inr (refl, refl);
  }

  book_fill-Works :
      (b : PaperBroker F) (o : Order F) (price cost cash q : F)
      → let (b', o') = book_fill b o price cost cash q in Works b o b' o'
  unfolding book_fill
  book_fill-Works b o price cost cash q = record {
    stored = λ k. lookup-insert o.id k _ b.orders;
    id_kept = refl;
    symbol_kept = refl;
    side_kept = refl;
    marks_kept = refl;
    halted_kept = refl;
    still = inl refl;
  }

  pub status-reject :
      (b : PaperBroker F) (o : Order F) (r : Reason F) → (reject b o r).1.status ≡ rejected
  unfolding reject
  status-reject b o r = refl

  status-book_fill :
      (b : PaperBroker F) (o : Order F) (price cost cash q : F)
      → (book_fill b o price cost cash q).1.status ≡ filled
  unfolding book_fill
  status-book_fill b o price cost cash q = refl

  -- A fill ends as filled or as rejected.
  abbrev pub IsClosed : Order F → Type 0
  IsClosed r = (r.status ≡ filled) ⊎ (r.status ≡ rejected)

  abbrev pub Fills : PaperBroker F → Order F → PaperBroker F × Order F → Type 0
  Fills b o p = Works b o p.0 p.1 × IsClosed p.1

  pub fill-Works : (b : PaperBroker F) (o : Order F) (mark : F) → Fills b o (fill b o mark)
  unfolding fill
  fill-Works b o mark =
      if-cases (Fills b o) (is_buy o.side)
        (λ _.
          if-cases (Fills b o) (lt b.cash _) (λ _. (reject-Works b o _, inr (status-reject b o _)))
            (λ _. (book_fill-Works b o _ _ _ _, inl (status-book_fill b o _ _ _ _))))
        (λ _. (book_fill-Works b o _ _ _ _, inl (status-book_fill b o _ _ _ _)))

  -- How `place_order` and `modify_order` can end: filled, rejected, or waiting for a price.
  pub data Ends (b : PaperBroker F) (o : Order F) (r : Order F) : Type 0 where
    closed : IsClosed r → Ends b o r
    resting :
        (mark : F)
        → lookup o.symbol b.marks ≡ some mark
        → marketable o mark ≡ false
        → r.status ≡ pending
        → Ends b o r

  abbrev pub Places : PaperBroker F → Order F → PaperBroker F × Order F → Type 0
  Places b o p = Works b o p.0 p.1 × Ends b o p.1

  rest-Works :
      (b : PaperBroker F) (o : Order F)
      → let o' : Order F = record o { status = pending } in
        Works b o (record b { orders = insert o.id o' b.orders }) o'
  rest-Works b o = record {
    stored = λ k. lookup-insert o.id k _ b.orders;
    id_kept = refl;
    symbol_kept = refl;
    side_kept = refl;
    marks_kept = refl;
    halted_kept = refl;
    still = inr (refl, refl);
  }

  place_at-Works :
      (b : PaperBroker F) (o : Order F) (mark : F)
      → lookup o.symbol b.marks ≡ some mark
      → Places b o (place_at b o mark)
  unfolding place_at
  place_at-Works b o mark found =
      if-cases (Places b o) (le mark nought)
        (λ _. (reject-Works b o _, closed (inr (status-reject b o _))))
        (λ _.
          if-cases (Places b o) (is_limit o.order_type && not (marketable o mark))
            (λ rests. (rest-Works b o, resting mark found (ground arith) refl))
            (λ _. let w = fill-Works b o mark in (w.0, closed w.1)))

  -- `place_order` returns the order that it stores under the order's id, with the symbol and side
  -- of the order; no other stored order, no mark and no switch changes. The order ends filled,
  -- rejected, or resting: then there is a mark at which it is not marketable. Cash and positions
  -- move only if it is filled.
  pub place_order-Works :
      (b : PaperBroker F) (uuid : String) (o : Order F)
      → Places b (with_broker_id uuid o) (place_order b uuid o)
  unfolding place_order
  place_order-Works b uuid o =
      let o' = with_broker_id uuid o in
      if-cases (Places b o') b.halted
        (λ _. (reject-Works b o' _, closed (inr (status-reject b o' _))))
        (λ _.
          maybe-cases (Places b o') (lookup o.symbol b.marks)
            (λ _. (reject-Works b o' _, closed (inr (status-reject b o' _)))) (place_at-Works b o'))
