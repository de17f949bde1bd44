-- ===== src/Migrations/Upgrade.antt =====
-- The revisions against the tables of the models.
use quant_pilot.Base.{◌≡◌, refl, ◌∙◌, ap, some, []}
use quant_pilot.Base.Dict.{lookup, insert, remove}
use quant_pilot.Migrations.Schema.{Schema, Database, IsDatabase, describe, steps, view-steps}
use quant_pilot.Migrations.Revisions.{upgrade, downgrade}
use quant_pilot.Migrations.Metadata.{metadata}

abbrev pub empty_schema : Schema
empty_schema = record { tables = []; indexes = [] }

upgraded : steps describe upgrade empty_schema ≡ some metadata
unfolding steps describe lookup insert
upgraded = refl

downgraded : steps describe downgrade metadata ≡ some empty_schema
unfolding steps describe lookup remove
downgraded = refl

-- On a database without tables the two upgrades succeed, one after the other, and leave just the
-- tables, the columns and the indexes of the models; the two downgrades then succeed and leave the
-- database without tables and indexes again. An operation whose needs are met is carried out.
pub upgrade-downgrade :
    {S : Type 0} (db : Database S)
    → IsDatabase db
    → (s : S) → db.view s ≡ empty_schema
    → (s' : S) × (s'' : S) × (steps db.apply upgrade s ≡ some s')
      × (db.view s' ≡ metadata)
      × (steps db.apply downgrade s' ≡ some s'')
      × (db.view s'' ≡ empty_schema)
upgrade-downgrade db laws s fresh =
    let (s', up, held) =
      view-steps db laws upgrade s metadata (ap (steps describe upgrade) fresh ∙ upgraded) in
    let (s'', down, left) =
      view-steps db laws downgrade s' empty_schema
        (ap (steps describe downgrade) held ∙ downgraded) in
    (s', s'', up, held, down, left)
