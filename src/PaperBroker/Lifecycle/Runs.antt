-- ===== src/PaperBroker/Lifecycle/Runs.antt =====
-- Sequences of calls on one broker. `Command` is a call with its arguments, and `run` makes the
-- calls in order, as the API and the market feed do on the process's one broker.
use quant_pilot.Base.{
  String, ◌≡◌, ◌≢◌, refl, false, some, List, [], ◌∷◌, arith, ◌∙◌, sym, ap, Bool-cases, Option-cases,
  inl, inr, str_eq, eq_iff, All,
}
use mathlib.Core.Path.{subst}
use mathlib.Core.Option.{some-injective}
use quant_pilot.Base.Dict.{
  Dict, lookup, insert, values, update, lookup-insert, insert-HasUniqueKeys,
}
use quant_pilot.Costs.{CostConfig}
use quant_pilot.Impact.{ImpactConfig}
use quant_pilot.Domain.{Order, OrderStatus, pending, no_market_price, trading_halted}
use quant_pilot.Float.{Float}
use quant_pilot.PaperBroker.{
  PaperBroker, with_broker_id, Changes, Outcome, is_pending, marketable, fill, process_order,
  process_all, process_pending, set_mark, update_marks, place_order, place_at, modify_order,
  cancel_order, reject, with_changes, fill_if_marketable, init,
}
use quant_pilot.PaperBroker.Frame.{
  IsValid, reject-IsValid, fill-IsValid, process_all-IsValid, insert-IsKeyed, id_of_lookup,
}
use quant_pilot.PaperBroker.Lifecycle.Placing.{fill-Works, place_order-Works}
use quant_pilot.PaperBroker.Lifecycle.Matching.{process_pending-closed_kept}
use quant_pilot.PaperBroker

pub data Command (F : Type 0) : Type 0 where
  place : String → Order F → Command F
  modify : String → Changes F → Command F
  cancel : String → Command F
  new_mark : String → F → Command F
  new_marks : Dict F → Command F
  halt resume : Command F

module _ {F : Type 0} ⦃d : Float F⦄ where
  unfoldable pub execute : PaperBroker F → Command F → PaperBroker F
  execute b (Command.place uuid o) = (place_order b uuid o).0
  execute b (Command.modify k changes) = (modify_order b k changes).0
  execute b (Command.cancel k) = (cancel_order b k).0
  execute b (Command.new_mark symbol price) = set_mark b symbol price
  execute b (Command.new_marks prices) = update_marks b prices
  execute b Command.halt = PaperBroker.halt b
  execute b Command.resume = PaperBroker.resume b

  unfoldable pub run : PaperBroker F → List (Command F) → PaperBroker F
  run b [] = b
  run b (c ∷ cs) = run (execute b c) cs

  store-IsValid :
      (b : PaperBroker F) (o : Order F)
      → IsValid b
      → IsValid (record b { orders = insert o.id o b.orders })
  store-IsValid b o v = record {
    unique_orders = insert-HasUniqueKeys o.id o b.orders v.unique_orders;
    keyed = insert-IsKeyed o b.orders v.keyed;
    unique_positions = v.unique_positions;
    has_shares = v.has_shares;
  }

  marks-IsValid :
      (b : PaperBroker F) (marks : Dict F) → IsValid b → IsValid (record b { marks = marks })
  marks-IsValid b marks v = record {
    unique_orders = v.unique_orders;
    keyed = v.keyed;
    unique_positions = v.unique_positions;
    has_shares = v.has_shares;
  }

  process_pending-IsValid : (b : PaperBroker F) → IsValid b → IsValid (process_pending b)
  unfolding process_pending
  process_pending-IsValid b v = process_all-IsValid b (values b.orders) v

  place_at-IsValid :
      (b : PaperBroker F) (o : Order F) (mark : F) → IsValid b → IsValid (place_at b o mark).0
  unfolding place_at
  place_at-IsValid b o mark v = ground (
    arith,
    reject-IsValid b o no_market_price v,
    store-IsValid b (record o { status = pending }) v,
    fill-IsValid b o mark v,
  )

  place_order-IsValid :
      (b : PaperBroker F) (uuid : String) (o : Order F)
      → IsValid b
      → IsValid (place_order b uuid o).0
  unfolding place_order
  place_order-IsValid b uuid o v =
      let o' = with_broker_id uuid o in
      elim (Option-cases (lookup o.symbol b.marks)) [
        | inl e ↦
            ground
              (arith, reject-IsValid b o' no_market_price v, reject-IsValid b o' trading_halted v)
        | inr (mark, e) ↦
            ground (arith, place_at-IsValid b o' mark v, reject-IsValid b o' trading_halted v)
      ]

  fill_if_marketable-IsValid :
      (b : PaperBroker F) (o : Order F) → IsValid b → IsValid (fill_if_marketable b o).0
  unfolding fill_if_marketable
  fill_if_marketable-IsValid b o v = elim (Option-cases (lookup o.symbol b.marks)) [
    | inl e ↦ ground arith
    | inr (mark, e) ↦ ground (arith, fill-IsValid b o mark v)
  ]

  -- A write to an order under the key at which it was found.
  rewrite-IsValid :
      (b : PaperBroker F) (k : String) (o o' : Order F)
      → IsValid b
      → lookup k b.orders ≡ some o
      → o'.id ≡ o.id
      → IsValid (record b { orders = insert k o' b.orders })
  rewrite-IsValid b k o o' v found same =
      let e : o'.id ≡ k = same ∙ id_of_lookup k o b.orders v.keyed found in
      subst (λ i. IsValid (record b { orders = insert i o' b.orders })) e (store-IsValid b o' v)

  modify_order-IsValid :
      (b : PaperBroker F) (k : String) (changes : Changes F)
      → IsValid b
      → IsValid (modify_order b k changes).0
  unfolding modify_order
  modify_order-IsValid b k changes v = elim (Option-cases (lookup k b.orders)) [
    | inl e ↦ ground arith
    | inr (o, e) ↦
        let o' = with_changes o changes in
        let v' = rewrite-IsValid b k o o' v e (unfold with_changes in refl) in
        let w = fill_if_marketable-IsValid (record b { orders = insert k o' b.orders }) o' v' in
        ground arith
  ]

  cancel_order-IsValid : (b : PaperBroker F) (k : String) → IsValid b → IsValid (cancel_order b k).0
  unfolding cancel_order
  cancel_order-IsValid b k v = elim (Option-cases (lookup k b.orders)) [
    | inl e ↦ ground arith
    | inr (o, e) ↦
        let w = rewrite-IsValid b k o (record o { status = OrderStatus.cancelled }) v e refl in
        ground arith
  ]

  execute-IsValid : (b : PaperBroker F) (c : Command F) → IsValid b → IsValid (execute b c)
  unfolding execute
  execute-IsValid b (Command.place uuid o) v = place_order-IsValid b uuid o v
  execute-IsValid b (Command.modify k changes) v = modify_order-IsValid b k changes v
  execute-IsValid b (Command.cancel k) v = cancel_order-IsValid b k v
  execute-IsValid b (Command.new_mark s p) v =
      unfold set_mark in process_pending-IsValid _ (marks-IsValid b (insert s p b.marks) v)
  execute-IsValid b (Command.new_marks ps) v =
      unfold update_marks in process_pending-IsValid _ (marks-IsValid b (update b.marks ps) v)
  execute-IsValid b Command.halt v =
      unfold PaperBroker.halt in
      record {
        unique_orders = v.unique_orders;
        keyed = v.keyed;
        unique_positions = v.unique_positions;
        has_shares = v.has_shares;
      }
  execute-IsValid b Command.resume v =
      unfold PaperBroker.resume in
      record {
        unique_orders = v.unique_orders;
        keyed = v.keyed;
        unique_positions = v.unique_positions;
        has_shares = v.has_shares;
      }

  run-IsValid_from : (b : PaperBroker F) (cs : List (Command F)) → IsValid b → IsValid (run b cs)
  unfolding run
  run-IsValid_from b [] v = v
  run-IsValid_from b (c ∷ cs) v = run-IsValid_from (execute b c) cs (execute-IsValid b c v)

  -- A new broker on which any calls are made in any order keeps each order under its own id, lists
  -- no order and no symbol twice, and keeps no position of zero shares.
  pub run-IsValid :
      (cash : F) (cost : CostConfig F) (impact : ImpactConfig F) (cs : List (Command F))
      → IsValid (run (init cash cost impact) cs)
  unfolding init
  run-IsValid cash cost impact cs =
      run-IsValid_from _ cs
        (record { unique_orders = tt; keyed = tt; unique_positions = tt; has_shares = tt })

  -- The call does not place an order with the id k.
  abbrev pub Spares : String → Command F → Type 0
  Spares k (Command.place uuid o) = o.id ≢ k
  Spares k (Command.modify _ _) = Unit
  Spares k (Command.cancel _) = Unit
  Spares k (Command.new_mark _ _) = Unit
  Spares k (Command.new_marks _) = Unit
  Spares k Command.halt = Unit
  Spares k Command.resume = Unit

  fill_if_marketable-other :
      (b : PaperBroker F) (o : Order F) (k : String)
      → o.id ≢ k
      → lookup k (fill_if_marketable b o).0.orders ≡ lookup k b.orders
  unfolding fill_if_marketable
  fill_if_marketable-other b o k ne = elim (Option-cases (lookup o.symbol b.marks)) [
    | inl e ↦ ground arith
    | inr (mark, e) ↦ ground (arith, (fill-Works b o mark).0.stored k, eq_iff o.id k)
  ]

  modify_order-closed :
      (b : PaperBroker F) (j : String) (changes : Changes F) (k : String) (o : Order F)
      → IsValid b
      → lookup k b.orders ≡ some o
      → is_pending o.status ≡ false
      → lookup k (modify_order b j changes).0.orders ≡ some o
  unfolding modify_order
  modify_order-closed b j changes k o v e shut = elim (Option-cases (lookup j b.orders)) [
    | inl none_left ↦ ground arith
    | inr (p, found) ↦
        let p' = with_changes p changes in
        let b1 : PaperBroker F = record b { orders = insert j p' b.orders } in
        let id : p'.id ≡ j = unfold with_changes in id_of_lookup j p b.orders v.keyed found in
        elim (Bool-cases (str_eq j k)) [
          | inl same ↦
              let jk : j ≡ k = (eq_iff j k).0 same in
              let po : some p ≡ some o = sym found ∙ ap (λ i. lookup i b.orders) jk ∙ e in
              ground (arith, some-injective p o po)
          | inr other ↦ ground (
            arith,
            eq_iff j k,
            fill_if_marketable-other b1 p' k (λ q. ground (arith, eq_iff j k)),
            lookup-insert j k p' b.orders,
          )
        ]
  ]

  cancel_order-closed :
      (b : PaperBroker F) (j k : String) (o : Order F)
      → lookup k b.orders ≡ some o
      → is_pending o.status ≡ false
      → lookup k (cancel_order b j).0.orders ≡ some o
  unfolding cancel_order
  cancel_order-closed b j k o e shut = elim (Option-cases (lookup j b.orders)) [
    | inl none_left ↦ ground arith
    | inr (p, found) ↦ elim (Bool-cases (str_eq j k)) [
      | inl same ↦
          let jk : j ≡ k = (eq_iff j k).0 same in
          let po : some p ≡ some o = sym found ∙ ap (λ i. lookup i b.orders) jk ∙ e in
          ground (arith, some-injective p o po)
      | inr other ↦
          let p' : Order F = record p { status = OrderStatus.cancelled } in
          ground (arith, lookup-insert j k p' b.orders)
    ]
  ]

  execute-closed :
      (b : PaperBroker F) (c : Command F) (k : String) (o : Order F)
      → IsValid b
      → Spares k c
      → lookup k b.orders ≡ some o
      → is_pending o.status ≡ false
      → lookup k (execute b c).orders ≡ some o
  unfolding execute
  execute-closed b (Command.place uuid p) k o v spares e shut =
      let w = (place_order-Works b uuid p).0.stored k in ground (arith, eq_iff p.id k)
  execute-closed b (Command.modify j changes) k o v spares e shut =
      modify_order-closed b j changes k o v e shut
  execute-closed b (Command.cancel j) k o v spares e shut = cancel_order-closed b j k o e shut
  execute-closed b (Command.new_mark s p) k o v spares e shut =
      unfold set_mark in
      process_pending-closed_kept _ k o (marks-IsValid b (insert s p b.marks) v) e shut
  execute-closed b (Command.new_marks ps) k o v spares e shut =
      unfold update_marks in
      process_pending-closed_kept _ k o (marks-IsValid b (update b.marks ps) v) e shut
  execute-closed b Command.halt k o v spares e shut = unfold PaperBroker.halt in e
  execute-closed b Command.resume k o v spares e shut = unfold PaperBroker.resume in e

  -- An order that is no longer pending is final: whatever calls follow, the broker keeps it as it
  -- is, unless an order with the same id is placed.
  pub run-closed :
      (b : PaperBroker F) (cs : List (Command F)) (k : String) (o : Order F)
      → IsValid b
      → All (Spares k) cs
      → lookup k b.orders ≡ some o
      → is_pending o.status ≡ false
      → lookup k (run b cs).orders ≡ some o
  unfolding run
  run-closed b [] k o v spares e shut = e
  run-closed b (c ∷ cs) k o v spares e shut =
      run-closed (execute b c) cs k o (execute-IsValid b c v) spares.1
        (execute-closed b c k o v spares.0 e shut) shut
