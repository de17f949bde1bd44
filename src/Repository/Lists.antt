-- ===== src/Repository/Lists.antt =====
-- The lists of `SqlAlchemyRepository`: the newest rows first. The query of the session is a parameter:
-- a table, the column that orders, a limit and an offset give rows.
use quant_pilot.Base.{ℕ, Option, none, some, List, [], ◌∷◌, maybe}
use quant_pilot.Domain.{Order, AuditEvent, BacktestRun}
use quant_pilot.Repository.Rows.{OrderOrm, order_of_row}
use quant_pilot.Repository.Runs.{BacktestRunOrm, run_to_domain}

-- `session.scalars(select(Orm).order_by(column.desc()).limit(limit).offset(offset))`
abbrev pub Newest : Type 0 → Type 0 → Type 0
Newest Row S = (Row → ℕ) → ℕ → ℕ → S → List Row

-- `[f(o) for o in rows]`, which raises where f does.
unfoldable pub all_of : {A B : Type 0} → (A → Option B) → List A → Option (List B)
all_of f [] = some []
all_of f (x ∷ xs) = maybe (f x) none λ y. maybe (all_of f xs) none λ ys. some (y ∷ ys)

module _ {S : Type 0} where
  unfoldable pub list_backtest_runs :
      Newest BacktestRunOrm S → ℕ → ℕ → S → Option (List BacktestRun)
  list_backtest_runs newest limit offset s =
      all_of run_to_domain (newest (λ (orm : BacktestRunOrm). orm.requested_at) limit offset s)

  unfoldable pub list_orders :
      {F : Type 0} → Newest (OrderOrm F) S → ℕ → S → Option (List (Order F))
  list_orders {F} newest limit s =
      all_of order_of_row (newest (λ (orm : OrderOrm F). orm.created_at) limit 0 s)

  -- The audit row has the columns of the event.
  unfoldable pub list_audit : {P : Type 0} → Newest (AuditEvent P) S → ℕ → S → List (AuditEvent P)
  list_audit {P} newest limit s = newest (λ (event : AuditEvent P). event.ts) limit 0 s
