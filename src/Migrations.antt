-- ===== src/Migrations.antt =====
-- src/quant_pilot/db/migrations/versions: the operations of the two revisions, and the tables of
-- src/quant_pilot/adapters/persistence/models.py that they must give. What Alembic does to a database is
-- a parameter with laws.
pub mod Schema
pub mod Revisions
pub mod Metadata
pub mod Upgrade
mod Tests
