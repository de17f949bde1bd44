-- ===== src/Live/Reconciliation.antt =====
-- src/quant_pilot/live/reconciliation.py. Quantities are integers. Python's `sorted` with the symbol
-- as its key is a stable insertion here, by the order of texts.
pub mod Exact
mod Tests
use Prim.Native.Nat.{Ordering}
use Prim.Native.String.{compare}
use quant_pilot.Base.{
  ℕ, String, Bool, true, false, not, ◌||◌, List, [], ◌∷◌, ◌++◌, leb, ltb, any, keep, map, is_empty,
  str_eq, maybe, if◌then◌else◌,
}
use quant_pilot.Base.Int.{ℤ, pos, ◌-ℤ◌, magnitude}
use quant_pilot.Base.Dict.{Dict, lookup, insert}
use quant_pilot.Domain.{Position}

pub record PositionMismatch : Type 0 where
  pub symbol : String
  pub broker_qty : ℤ
  pub book_qty : ℤ

pub record ReconciliationReport : Type 0 where
  pub ok : Bool
  pub mismatches : List PositionMismatch

-- `d.get(sym, 0)`
abbrev pub quantity_of : String → Dict ℤ → ℤ
quantity_of sym d = maybe (lookup sym d) (pos 0) λ q. q

abbrev pub keys : Dict ℤ → List String
keys d = map (λ e. e.0) d

abbrev pub is_in : String → List String → Bool
is_in s ss = any (λ t. str_eq t s) ss

-- `set(broker) | set(book)`, each symbol once
unfoldable pub union : List String → List String → List String
union [] ys = ys
union (x ∷ xs) ys = if is_in x ys then union xs ys else x ∷ union xs ys

-- `abs(a - b) > tolerance`
abbrev pub differs : ℕ → ℤ → ℤ → Bool
differs tolerance a b = ltb tolerance (magnitude (a -ℤ b))

unfoldable pub mismatches_of : Dict ℤ → Dict ℤ → ℕ → List String → List PositionMismatch
mismatches_of broker book tolerance [] = []
mismatches_of broker book tolerance (sym ∷ syms) =
    if differs tolerance (quantity_of sym broker) (quantity_of sym book)
    then record {
      symbol = sym;
      broker_qty = quantity_of sym broker;
      book_qty = quantity_of sym book;
    }
      ∷ mismatches_of broker book tolerance syms
    else mismatches_of broker book tolerance syms

unfoldable pub insert_by_symbol : PositionMismatch → List PositionMismatch → List PositionMismatch
insert_by_symbol m [] = m ∷ []
insert_by_symbol m (n ∷ ns) = elim (compare m.symbol n.symbol) [
  | Ordering.gt ↦ n ∷ insert_by_symbol m ns
  | _ ↦ m ∷ n ∷ ns
]

unfoldable pub sort_by_symbol : List PositionMismatch → List PositionMismatch
sort_by_symbol [] = []
sort_by_symbol (m ∷ ms) = insert_by_symbol m (sort_by_symbol ms)

module _ {F : Type 0} where
  -- `{p.symbol: p.quantity for p in broker_positions}`: a later position of a symbol wins.
  unfoldable pub broker_dict : Dict ℤ → List (Position F) → Dict ℤ
  broker_dict d [] = d
  broker_dict d (p ∷ ps) = broker_dict (insert p.symbol p.quantity d) ps

  unfoldable pub reconcile_positions : List (Position F) → Dict ℤ → ℕ → ReconciliationReport
  reconcile_positions broker_positions book tolerance =
      let broker = broker_dict [] broker_positions in
      let mismatches = mismatches_of broker book tolerance (union (keys broker) (keys book)) in
      record { ok = is_empty mismatches; mismatches = sort_by_symbol mismatches }
