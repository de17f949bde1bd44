-- ===== src/Live/Reconciliation/Tests.antt =====
-- A broker that holds one share more than the book says.
use quant_pilot.Base.{String, ◌≡◌, ◌↔◌, true, false, none, List, [], ◌∷◌}
use quant_pilot.Base.Int.{ℤ, pos}
use quant_pilot.Base.Dict.{Dict}
use quant_pilot.Domain.{Position}
use quant_pilot.Live.Reconciliation.{differs, quantity_of, reconcile_positions}
use quant_pilot.Live.Reconciliation.Exact.{held, reconcile_positions-ok_iff}

abbrev holdings : List (Position ℤ)
holdings = record { symbol = "INFY"; quantity = pos 11; avg_price = pos 90; last_price = none } ∷ []

abbrev book : Dict ℤ
book = ("INFY", pos 10) ∷ ("TCS", pos 0) ∷ []

reconcile_positions-ok_iff_example :
    ((reconcile_positions holdings book 0).ok ≡ true)
    ↔ ((s : String) → differs 0 (held s (pos 0) holdings) (quantity_of s book) ≡ false)
reconcile_positions-ok_iff_example = reconcile_positions-ok_iff holdings book 0
