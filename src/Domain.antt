-- ===== src/Domain.antt =====
-- src/quant_pilot/domain/models.py: the entities that the broker, the API and the persistence share.
-- An identifier is a text, a point in time and a date are a number (seconds, days), and a JSON
-- object (`payload`, `params`, `metrics`) is a text. A float is of the type F.
use quant_pilot.Base.{ℕ, String, Bool, Option, List}
use quant_pilot.Base.Int.{ℤ}

pub data Exchange : Type 0 where
  nse bse : Exchange

pub data StrategyType : Type 0 where
  momentum pairs combined : StrategyType

pub data RunStatus : Type 0 where
  queued running succeeded failed cancelled : RunStatus

pub data OrderSide : Type 0 where
  buy sell : OrderSide

pub data OrderType : Type 0 where
  market limit : OrderType

pub data OrderStatus : Type 0 where
  pending approved submitted filled rejected cancelled : OrderStatus

-- The texts of the enumerations (`StrEnum`).
abbrev pub exchange_value : Exchange → String
exchange_value Exchange.nse = "NSE"
exchange_value Exchange.bse = "BSE"

abbrev pub strategy_type_value : StrategyType → String
strategy_type_value StrategyType.momentum = "momentum"
strategy_type_value StrategyType.pairs = "pairs"
strategy_type_value StrategyType.combined = "combined"

abbrev pub run_status_value : RunStatus → String
run_status_value RunStatus.queued = "queued"
run_status_value RunStatus.running = "running"
run_status_value RunStatus.succeeded = "succeeded"
run_status_value RunStatus.failed = "failed"
run_status_value RunStatus.cancelled = "cancelled"

abbrev pub side_value : OrderSide → String
side_value OrderSide.buy = "buy"
side_value OrderSide.sell = "sell"

abbrev pub type_value : OrderType → String
type_value OrderType.market = "market"
type_value OrderType.limit = "limit"

abbrev pub status_value : OrderStatus → String
status_value OrderStatus.pending = "pending"
status_value OrderStatus.approved = "approved"
status_value OrderStatus.submitted = "submitted"
status_value OrderStatus.filled = "filled"
status_value OrderStatus.rejected = "rejected"
status_value OrderStatus.cancelled = "cancelled"

-- `Order.reason`. The text of a fill prints the quantity, the price and the cost, which stand here
-- unprinted.
pub data Reason (F : Type 0) : Type 0 where
  trading_halted no_market_price insufficient_buying_power submitted_to_smart_api : Reason F
  filled_at : ℤ → F → F → Reason F

pub record Instrument : Type 0 where
  pub symbol : String
  pub exchange : Exchange
  pub name : Option String
  pub sector : Option String
  pub has_liquid_ssf : Bool
  pub lot_size : Option ℤ

pub record StrategyConfig : Type 0 where
  pub id : String
  pub name : String
  pub strategy_type : StrategyType
  pub params : String
  pub created_at : ℕ

pub record UniverseMembership : Type 0 where
  pub id : String
  pub index : String
  pub symbol : String
  pub effective_from : ℕ
  pub effective_to : Option ℕ

pub record ArtifactRef : Type 0 where
  pub key : String
  pub uri : String
  pub size : ℕ
  pub content_type : String
  pub created_at : ℕ

pub record BacktestRun : Type 0 where
  pub id : String
  pub strategy_config_id : Option String
  pub status : RunStatus
  pub params : String
  pub metrics : Option String
  pub artifacts : List ArtifactRef
  pub error : Option String
  pub requested_at : ℕ
  pub started_at : Option ℕ
  pub finished_at : Option ℕ

pub record Order (F : Type 0) : Type 0 where
  pub id : String
  pub symbol : String
  pub side : OrderSide
  pub quantity : ℤ
  pub order_type : OrderType
  pub limit_price : Option F
  pub status : OrderStatus
  pub broker_order_id : Option String
  pub reason : Option (Reason F)
  pub created_at : ℕ
  pub approved_at : Option ℕ

pub record Position (F : Type 0) : Type 0 where
  pub symbol : String
  pub quantity : ℤ
  pub avg_price : F
  pub last_price : Option F

pub record MarginInfo (F : Type 0) : Type 0 where
  pub available : F
  pub used : F
  pub total : F

pub record AuditEvent (P : Type 0) : Type 0 where
  pub id : String
  pub ts : ℕ
  pub actor : String
  pub action : String
  pub resource_type : Option String
  pub resource_id : Option String
  pub payload : P
  pub ip : Option String
