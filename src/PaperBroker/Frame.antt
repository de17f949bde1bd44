-- ===== src/PaperBroker/Frame.antt =====
-- What a call leaves alone, and the invariant of the broker's dictionaries.
use quant_pilot.Base.{
  String, ◌≡◌, refl, false, some, List, [], ◌∷◌, arith, eq_iff, Option-cases, inl, inr,
}
use quant_pilot.Base.Dict.{
  Dict, lookup, insert, remove, HasUniqueKeys, insert-HasUniqueKeys, remove-HasUniqueKeys,
}
use quant_pilot.Domain.{Order, OrderStatus, Reason, insufficient_buying_power}
use quant_pilot.Float.{Float, eq, nought, negate, of_int, ◌+◌, ◌-◌, ◌*◌}
use quant_pilot.PaperBroker.{
  PaperBroker, reject, book_fill, fill, fill_price, fill_cost, apply_position, keep_position,
  process_order, process_all,
}

module _ {F : Type 0} ⦃d : Float F⦄ where
  -- Every order is stored under its id.
  abbrev pub IsKeyed : Dict (Order F) → Type 0
  IsKeyed [] = Unit
  IsKeyed ((k, o) ∷ os) = (o.id ≡ k) × IsKeyed os

  -- No position of zero shares is kept.
  abbrev pub HasShares : Dict (F × F) → Type 0
  HasShares [] = Unit
  HasShares ((k, p) ∷ ps) = (eq p.0 nought ≡ false) × HasShares ps

  pub record IsValid (b : PaperBroker F) : Type 0 where
    pub unique_orders : HasUniqueKeys b.orders
    pub keyed : IsKeyed b.orders
    pub unique_positions : HasUniqueKeys b.positions
    pub has_shares : HasShares b.positions

  pub insert-IsKeyed : (o : Order F) (os : Dict (Order F)) → IsKeyed os → IsKeyed (insert o.id o os)
  unfolding insert
  insert-IsKeyed o [] h = (refl, tt)
  insert-IsKeyed o ((j, p) ∷ os) h = ground (arith, eq_iff j o.id, insert-IsKeyed o os h.1)

  pub id_of_lookup :
      (k : String) (o : Order F) (os : Dict (Order F))
      → IsKeyed os
      → lookup k os ≡ some o
      → o.id ≡ k
  unfolding lookup
  id_of_lookup k o [] h e = cc
  id_of_lookup k o ((j, p) ∷ os) h e = ground (arith, eq_iff j k, id_of_lookup k o os h.1)

  insert-HasShares :
      (k : String) (p : F × F) (ps : Dict (F × F))
      → eq p.0 nought ≡ false
      → HasShares ps
      → HasShares (insert k p ps)
  unfolding insert
  insert-HasShares k p [] e h = (e, tt)
  insert-HasShares k p ((j, q) ∷ ps) e h = ground (arith, insert-HasShares k p ps e h.1)

  remove-HasShares : (k : String) (ps : Dict (F × F)) → HasShares ps → HasShares (remove k ps)
  unfolding remove
  remove-HasShares k [] h = tt
  remove-HasShares k ((j, q) ∷ ps) h = ground (arith, remove-HasShares k ps h.1)

  pub keep_position-HasShares :
      (ps : Dict (F × F)) (s : String) (n avg : F)
      → HasShares ps
      → HasShares (keep_position ps s n avg)
  unfolding keep_position
  keep_position-HasShares ps s n avg h =
      ground (arith, remove-HasShares s ps h, insert-HasShares s (n, avg) ps)

  pub keep_position-HasUniqueKeys :
      (ps : Dict (F × F)) (s : String) (n avg : F)
      → HasUniqueKeys ps
      → HasUniqueKeys (keep_position ps s n avg)
  unfolding keep_position
  keep_position-HasUniqueKeys ps s n avg h =
      ground (arith, remove-HasUniqueKeys s ps h, insert-HasUniqueKeys s (n, avg) ps)

  pub reject-IsValid :
      (b : PaperBroker F) (o : Order F) (r : Reason F) → IsValid b → IsValid (reject b o r).0
  unfolding reject
  reject-IsValid b o r v =
      let o' : Order F = record o { status = OrderStatus.rejected; reason = some r } in
      record {
        unique_orders = insert-HasUniqueKeys o.id o' b.orders v.unique_orders;
        keyed = insert-IsKeyed o' b.orders v.keyed;
        unique_positions = v.unique_positions;
        has_shares = v.has_shares;
      }

  pub book_fill-IsValid :
      (b : PaperBroker F) (o : Order F) (price cost cash q : F)
      → IsValid b
      → IsValid (book_fill b o price cost cash q).0
  unfolding book_fill
  book_fill-IsValid b o price cost cash q v =
      let o' = (book_fill b o price cost cash q).1 in
      record {
        unique_orders = insert-HasUniqueKeys o.id o' b.orders v.unique_orders;
        keyed = insert-IsKeyed o' b.orders v.keyed;
        unique_positions =
            unfold apply_position in
            keep_position-HasUniqueKeys b.positions o.symbol _ _ v.unique_positions;
        has_shares =
            unfold apply_position in keep_position-HasShares b.positions o.symbol _ _ v.has_shares;
      }

  pub fill-IsValid :
      (b : PaperBroker F) (o : Order F) (mark : F) → IsValid b → IsValid (fill b o mark).0
  unfolding fill
  fill-IsValid b o mark v =
      let price = fill_price b o mark in
      let cost = fill_cost b o price in
      let q : F = of_int o.quantity in
      ground (
        arith,
        reject-IsValid b o insufficient_buying_power v,
        book_fill-IsValid b o price cost (b.cash - (price * q + cost)) q v,
        book_fill-IsValid b o price cost (b.cash + (price * q - cost)) (negate q) v,
      )

  process_order-IsValid :
      (b : PaperBroker F) (o : Order F) → IsValid b → IsValid (process_order b o)
  unfolding process_order
  process_order-IsValid b o v = elim (Option-cases (lookup o.symbol b.marks)) [
    | inl e ↦ ground arith
    | inr (mark, e) ↦ ground (arith, fill-IsValid b o mark v)
  ]

  pub process_all-IsValid :
      (b : PaperBroker F) (os : List (Order F)) → IsValid b → IsValid (process_all b os)
  unfolding process_all
  process_all-IsValid b [] v = v
  process_all-IsValid b (o ∷ os) v =
      process_all-IsValid (process_order b o) os (process_order-IsValid b o v)
