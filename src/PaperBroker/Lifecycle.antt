-- ===== src/PaperBroker/Lifecycle.antt =====
-- The life of an order in the broker: how each call leaves the stored orders.
pub mod Placing
pub mod Matching
pub mod Runs
