-- ===== src/System.antt =====
-- The service around the routes: src/quant_pilot/config/settings.py, the health checks of
-- src/quant_pilot/api/routers/system.py, and src/quant_pilot/api/security/headers.py.
pub mod Settings
pub mod Health
pub mod Headers
pub mod App
mod Tests
