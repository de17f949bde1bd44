-- ===== src/System/Health.antt =====
-- The health checks of src/quant_pilot/api/routers/system.py. What the database and redis answer is an
-- argument: `none` is an exception.
use quant_pilot.Base.{String, Bool, true, false, ◌&&◌, Option, maybe, if◌then◌else◌}
use quant_pilot.System.Settings.{Settings}

pub record Health : Type 0 where
  pub status : String
  pub service : String
  pub version : String

pub record Readiness : Type 0 where
  pub status : String
  pub database : String
  pub redis : String
  pub trading_enabled : Bool

unfoldable pub liveness : Settings → Health
liveness settings = record {
  status = "ok";
  service = settings.app_name;
  version = settings.version;
}

-- `_check_db`, of the connection and its statement
unfoldable pub check_db : {R : Type 0} → Option R → Bool
check_db answer = maybe answer false λ _. true

-- `_check_redis`, of `client.ping()`
unfoldable pub check_redis : Option Bool → Bool
check_redis ping = maybe ping false λ pong. pong

unfoldable pub readiness : {R : Type 0} → Settings → Option R → Option Bool → Readiness
readiness settings answer ping =
    let db_ok = check_db answer in
    let redis_ok = check_redis ping in
    record {
      status = if db_ok && redis_ok then "ok" else "degraded";
      database = if db_ok then "ok" else "down";
      redis = if redis_ok then "ok" else "down";
      trading_enabled = settings.trading_enabled;
    }
