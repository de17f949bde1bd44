-- ===== src/Repository/Storage.antt =====
-- Saving an order and getting it back.
use quant_pilot.Base.{String, ◌≡◌, some, str_eq, if◌then◌else◌, arith, Option-cases, inl, inr}
use quant_pilot.Domain.{Order}
use quant_pilot.Repository.{Table, IsTable, save_order, get_order}
use quant_pilot.Repository.Rows.{OrderOrm, order_row, order_of_row-order_row}

module _ {F S : Type 0} (orders : Table (OrderOrm F) S) (laws : IsTable orders) where
  -- After `save_order`, whether it inserts or updates, `get_order` returns exactly the saved order
  -- for its id, and for every other id what it returned before.
  pub get_order-save_order :
      (o : Order F) (s : S) (k : String)
      → get_order orders k (save_order orders o s)
        ≡ (if str_eq o.id k then some (some o) else get_order orders k s)
  unfolding get_order save_order
  get_order-save_order o s k = elim (Option-cases (orders.find s o.id)) [
    | inl new ↦ ground (arith, laws.find-add s o.id k (order_row o) new, order_of_row-order_row o)
    | inr (old, found) ↦
        ground (arith, laws.find-write s o.id k old (order_row o) found, order_of_row-order_row o)
  ]
