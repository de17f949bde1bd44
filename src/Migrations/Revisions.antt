-- ===== src/Migrations/Revisions.antt =====
-- `upgrade` and `downgrade` of the revisions 0001 and 0002, as their operations in order.
use quant_pilot.Base.{String, Bool, true, false, none, some, List, [], ◌∷◌, ◌++◌}
use quant_pilot.Migrations.Schema.{ColumnType, Column, Index, Operation}

-- `sa.Column`
abbrev pub column : String → ColumnType → Bool → Column
column name column_type nullable = record {
  name = name;
  column_type = column_type;
  nullable = nullable;
  primary_key = false;
  references = none;
}

-- A column with `primary_key=True` is not nullable.
abbrev pub key : String → ColumnType → Column
key name column_type = record (column name column_type false) { primary_key = true }

-- `nullable=True` and `nullable=False`
abbrev pub nullable : Bool
nullable = true

abbrev pub required : Bool
required = false

abbrev pub index_on : String → List String → Index
index_on table columns = record { table = table; columns = columns }

abbrev pub upgrade_initial : List Operation
upgrade_initial =
    Operation.create_table "strategy_configs" (
      key "id" (ColumnType.string 32)
      ∷ column "name" (ColumnType.string 200) required
      ∷ column "strategy_type" (ColumnType.string 50) required
      ∷ column "params" ColumnType.jsonb required
      ∷ column "created_at" ColumnType.datetime_tz required
      ∷ [])
    ∷ Operation.create_table "backtest_runs" (
        key "id" (ColumnType.string 32)
        ∷ record (column "strategy_config_id" (ColumnType.string 32) nullable) {
          references = some "strategy_configs";
        }
        ∷ column "status" (ColumnType.string 20) required
        ∷ column "params" ColumnType.jsonb required
        ∷ column "metrics" ColumnType.jsonb nullable
        ∷ column "artifacts" ColumnType.jsonb nullable
        ∷ column "error" ColumnType.text nullable
        ∷ column "requested_at" ColumnType.datetime_tz required
        ∷ column "started_at" ColumnType.datetime_tz nullable
        ∷ column "finished_at" ColumnType.datetime_tz nullable
        ∷ [])
    ∷ Operation.create_index "ix_backtest_runs_status" (index_on "backtest_runs" ("status" ∷ []))
    ∷ Operation.create_table "audit_events" (
        key "id" (ColumnType.string 32)
        ∷ column "ts" ColumnType.datetime_tz required
        ∷ column "actor" (ColumnType.string 100) required
        ∷ column "action" (ColumnType.string 100) required
        ∷ column "resource_type" (ColumnType.string 50) nullable
        ∷ column "resource_id" (ColumnType.string 64) nullable
        ∷ column "payload" ColumnType.jsonb required
        ∷ column "ip" (ColumnType.string 64) nullable
        ∷ [])
    ∷ Operation.create_index "ix_audit_events_ts" (index_on "audit_events" ("ts" ∷ []))
    ∷ Operation.create_table "instruments" (
        key "symbol" (ColumnType.string 32)
        ∷ column "exchange" (ColumnType.string 10) required
        ∷ column "name" (ColumnType.string 200) nullable
        ∷ column "sector" (ColumnType.string 100) nullable
        ∷ column "has_liquid_ssf" ColumnType.boolean required
        ∷ column "lot_size" ColumnType.integer nullable
        ∷ [])
    ∷ Operation.create_table "universe_membership" (
        key "id" (ColumnType.string 32)
        ∷ column "index" (ColumnType.string 50) required
        ∷ column "symbol" (ColumnType.string 32) required
        ∷ column "effective_from" ColumnType.day required
        ∷ column "effective_to" ColumnType.day nullable
        ∷ [])
    ∷ Operation.create_index "ix_universe_index_symbol"
        (index_on "universe_membership" ("index" ∷ "symbol" ∷ []))
    ∷ Operation.create_index "ix_universe_index_from"
        (index_on "universe_membership" ("index" ∷ "effective_from" ∷ []))
    ∷ []

abbrev pub downgrade_initial : List Operation
downgrade_initial =
    Operation.drop_index "ix_universe_index_from"
    ∷ Operation.drop_index "ix_universe_index_symbol"
    ∷ Operation.drop_table "universe_membership"
    ∷ Operation.drop_table "instruments"
    ∷ Operation.drop_index "ix_audit_events_ts"
    ∷ Operation.drop_table "audit_events"
    ∷ Operation.drop_index "ix_backtest_runs_status"
    ∷ Operation.drop_table "backtest_runs"
    ∷ Operation.drop_table "strategy_configs"
    ∷ []

abbrev pub upgrade_orders : List Operation
upgrade_orders =
    Operation.create_table "orders" (
      key "id" (ColumnType.string 32)
      ∷ column "symbol" (ColumnType.string 32) required
      ∷ column "side" (ColumnType.string 8) required
      ∷ column "quantity" ColumnType.integer required
      ∷ column "order_type" (ColumnType.string 10) required
      ∷ column "limit_price" ColumnType.float nullable
      ∷ column "status" (ColumnType.string 12) required
      ∷ column "broker_order_id" (ColumnType.string 64) nullable
      ∷ column "reason" ColumnType.text nullable
      ∷ column "created_at" ColumnType.datetime_tz required
      ∷ column "approved_at" ColumnType.datetime_tz nullable
      ∷ [])
    ∷ Operation.create_index "ix_orders_status" (index_on "orders" ("status" ∷ []))
    ∷ []

abbrev pub downgrade_orders : List Operation
downgrade_orders = Operation.drop_index "ix_orders_status" ∷ Operation.drop_table "orders" ∷ []

-- To the head and back to the base: each `down_revision` names the one before.
abbrev pub upgrade : List Operation
upgrade = upgrade_initial ++ upgrade_orders

abbrev pub downgrade : List Operation
downgrade = downgrade_orders ++ downgrade_initial
