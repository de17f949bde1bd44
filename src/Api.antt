-- ===== src/Api.antt =====
-- src/quant_pilot/api/routers/: the routes that are not about orders. A request's session is
-- committed when its handler returns and rolled back when it raises.
pub mod Backtests
pub mod Curves
pub mod Data
pub mod Sweep
pub mod Portfolio
mod Tests
