-- ===== src/Migrations/Tests.antt =====
-- A database that is its schema.
use quant_pilot.Base.{◌≡◌, refl, some}
use quant_pilot.Migrations.Schema.{Schema, Database, IsDatabase, describe, steps}
use quant_pilot.Migrations.Revisions.{upgrade, downgrade}
use quant_pilot.Migrations.Metadata.{metadata}
use quant_pilot.Migrations.Upgrade.{empty_schema, upgrade-downgrade}

abbrev database : Database Schema
database = record { apply = describe; view = λ s. s }

database-IsDatabase : IsDatabase database
database-IsDatabase = record { view-apply = λ o s schema made. (schema, made, refl) }

upgrade-downgrade_example :
    (s' : Schema) × (s'' : Schema) × (steps describe upgrade empty_schema ≡ some s')
    × (s' ≡ metadata)
    × (steps describe downgrade s' ≡ some s'')
    × (s'' ≡ empty_schema)
upgrade-downgrade_example = upgrade-downgrade database database-IsDatabase empty_schema refl
