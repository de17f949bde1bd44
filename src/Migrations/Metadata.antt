-- ===== src/Migrations/Metadata.antt =====
-- The tables of src/quant_pilot/adapters/persistence/models.py, as SQLAlchemy has them in
-- `Base.metadata` for PostgreSQL: `JSONType` is JSONB there, and a column with `index=True` has an
-- index that is named after its table and itself.
use Prim.Native.String.{◌++◌ as text_append}
use quant_pilot.Base.{String, some, List, [], ◌∷◌}
use quant_pilot.Migrations.Schema.{ColumnType, Column, Index, Schema}
use quant_pilot.Migrations.Revisions.{column, key, nullable, required, index_on}

abbrev pub strategy_config_orm : List Column
strategy_config_orm =
    key "id" (ColumnType.string 32)
    ∷ column "name" (ColumnType.string 200) required
    ∷ column "strategy_type" (ColumnType.string 50) required
    ∷ column "params" ColumnType.jsonb required
    ∷ column "created_at" ColumnType.datetime_tz required
    ∷ []

abbrev pub backtest_run_orm : List Column
backtest_run_orm =
    key "id" (ColumnType.string 32)
    ∷ record (column "strategy_config_id" (ColumnType.string 32) nullable) {
      references = some "strategy_configs";
    }
    ∷ column "status" (ColumnType.string 20) required
    ∷ column "params" ColumnType.jsonb required
    ∷ column "metrics" ColumnType.jsonb nullable
    ∷ column "artifacts" ColumnType.jsonb nullable
    ∷ column "error" ColumnType.text nullable
    ∷ column "requested_at" ColumnType.datetime_tz required
    ∷ column "started_at" ColumnType.datetime_tz nullable
    ∷ column "finished_at" ColumnType.datetime_tz nullable
    ∷ []

abbrev pub audit_event_orm : List Column
audit_event_orm =
    key "id" (ColumnType.string 32)
    ∷ column "ts" ColumnType.datetime_tz required
    ∷ column "actor" (ColumnType.string 100) required
    ∷ column "action" (ColumnType.string 100) required
    ∷ column "resource_type" (ColumnType.string 50) nullable
    ∷ column "resource_id" (ColumnType.string 64) nullable
    ∷ column "payload" ColumnType.jsonb required
    ∷ column "ip" (ColumnType.string 64) nullable
    ∷ []

abbrev pub instrument_orm : List Column
instrument_orm =
    key "symbol" (ColumnType.string 32)
    ∷ column "exchange" (ColumnType.string 10) required
    ∷ column "name" (ColumnType.string 200) nullable
    ∷ column "sector" (ColumnType.string 100) nullable
    ∷ column "has_liquid_ssf" ColumnType.boolean required
    ∷ column "lot_size" ColumnType.integer nullable
    ∷ []

abbrev pub order_orm : List Column
order_orm =
    key "id" (ColumnType.string 32)
    ∷ column "symbol" (ColumnType.string 32) required
    ∷ column "side" (ColumnType.string 8) required
    ∷ column "quantity" ColumnType.integer required
    ∷ column "order_type" (ColumnType.string 10) required
    ∷ column "limit_price" ColumnType.float nullable
    ∷ column "status" (ColumnType.string 12) required
    ∷ column "broker_order_id" (ColumnType.string 64) nullable
    ∷ column "reason" ColumnType.text nullable
    ∷ column "created_at" ColumnType.datetime_tz required
    ∷ column "approved_at" ColumnType.datetime_tz nullable
    ∷ []

abbrev pub membership_orm : List Column
membership_orm =
    key "id" (ColumnType.string 32)
    ∷ column "index" (ColumnType.string 50) required
    ∷ column "symbol" (ColumnType.string 32) required
    ∷ column "effective_from" ColumnType.day required
    ∷ column "effective_to" ColumnType.day nullable
    ∷ []

-- `index=True`
abbrev pub indexed : String → String → String × Index
indexed table col =
    (text_append "ix_" (text_append table (text_append "_" col)), index_on table (col ∷ []))

-- `Base.metadata`
abbrev pub metadata : Schema
metadata = record {
  tables =
      ("strategy_configs", strategy_config_orm)
      ∷ ("backtest_runs", backtest_run_orm)
      ∷ ("audit_events", audit_event_orm)
      ∷ ("instruments", instrument_orm)
      ∷ ("universe_membership", membership_orm)
      ∷ ("orders", order_orm)
      ∷ [];
  indexes =
      indexed "backtest_runs" "status"
      ∷ indexed "audit_events" "ts"
      ∷ ("ix_universe_index_symbol", index_on "universe_membership" ("index" ∷ "symbol" ∷ []))
      ∷ ("ix_universe_index_from", index_on "universe_membership" ("index" ∷ "effective_from" ∷ []))
      ∷ indexed "orders" "status"
      ∷ [];
}
