-- ===== src/Risk.antt =====
-- src/quant_pilot/engine/risk: the drawdown circuit breaker, and position sizing.
pub mod Drawdown
pub mod Sizing
