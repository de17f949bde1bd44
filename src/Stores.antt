-- ===== src/Stores.antt =====
-- The stores of files and of secrets: src/quant_pilot/adapters/artifacts and adapters/secrets.
pub mod Artifacts
pub mod Secrets
pub mod Tests
