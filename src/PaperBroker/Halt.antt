-- ===== src/PaperBroker/Halt.antt =====
-- The kill switch: what a halted broker refuses, and what it does not.
use quant_pilot.Base.{
  String, ◌≡◌, refl, true, some, List, [], ◌∷◌, arith, Option-cases, inl, inr, ap, ◌∙◌,
}
use quant_pilot.Base.Dict.{Dict, lookup, insert, update, values, lookup-insert_self}
use quant_pilot.Domain.{Order, OrderStatus, trading_halted}
use quant_pilot.Float.{Float}
use quant_pilot.PaperBroker.{
  PaperBroker, halt, reject, fill, process_order, process_all, process_pending, set_mark,
  update_marks, place_order, book_fill, fill_price, fill_cost,
}

module _ {F : Type 0} ⦃d : Float F⦄ where
  -- A halted broker rejects every order that is placed, with the kill switch as the reason: the
  -- rejected order is stored under its id, and cash, positions and marks are as before.
  pub place_order_halted :
      (b : PaperBroker F) (uuid : String) (o : Order F)
      → b.halted ≡ true
      → let (b', r) = place_order b uuid o in
        (r.status ≡ OrderStatus.rejected)
        × (r.reason ≡ some trading_halted)
        × (lookup o.id b'.orders ≡ some r)
        × (b'.cash ≡ b.cash)
        × (b'.positions ≡ b.positions)
        × (b'.marks ≡ b.marks)
  unfolding place_order reject
  place_order_halted b uuid o h =
      let rejected : Order F = record o {
        broker_order_id = some uuid;
        status = OrderStatus.rejected;
        reason = some trading_halted;
      } in
      ground (arith, lookup-insert_self o.id rejected b.orders)

  halt-fill :
      (b : PaperBroker F) (o : Order F) (mark : F)
      → (fill (halt b) o mark).0 ≡ halt (fill b o mark).0
  unfolding halt fill reject book_fill fill_price fill_cost
  halt-fill b o mark = ground arith

  halt-process_order :
      (b : PaperBroker F) (o : Order F) → process_order (halt b) o ≡ halt (process_order b o)
  unfolding process_order halt
  halt-process_order b o = elim (Option-cases (lookup o.symbol b.marks)) [
    | inl e ↦ ground arith
    | inr (mark, e) ↦ ground (arith, halt-fill b o mark)
  ]

  halt-process_all :
      (b : PaperBroker F) (os : List (Order F)) → process_all (halt b) os ≡ halt (process_all b os)
  unfolding process_all
  halt-process_all b [] = refl
  halt-process_all b (o ∷ os) =
      ap (λ c. process_all c os) (halt-process_order b o) ∙ halt-process_all (process_order b o) os

  halt-process_pending : (b : PaperBroker F) → process_pending (halt b) ≡ halt (process_pending b)
  unfolding process_pending halt
  halt-process_pending b = halt-process_all b (values b.orders)

  -- The kill switch does not reach resting orders: new marks fill the same orders, at the same
  -- prices, with the switch on as with it off.
  pub marks_ignore_halt :
      (b : PaperBroker F)
      → ((symbol : String) (price : F)
          → set_mark (halt b) symbol price ≡ halt (set_mark b symbol price))
        × ((prices : Dict F) → update_marks (halt b) prices ≡ halt (update_marks b prices))
  unfolding set_mark update_marks halt
  marks_ignore_halt b = (
    λ symbol price. halt-process_pending (record b { marks = insert symbol price b.marks }),
    λ prices. halt-process_pending (record b { marks = update b.marks prices }),
  )
