-- ===== src/Live.antt =====
-- src/quant_pilot/live: the reconciliation of broker positions with the internal book,
-- and the checks of fills and of profit and loss.
pub mod Reconciliation
pub mod Slippage
