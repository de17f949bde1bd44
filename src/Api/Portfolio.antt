-- ===== src/Api/Portfolio.antt =====
-- src/quant_pilot/api/routers/portfolio.py, and the lists of api/routers/orders.py and backtests.py and
-- the ingestion routes of data.py. The broker of the process is the `PaperBroker`; a job that is put on
-- a queue is its function with its arguments.
use quant_pilot.Base.{ℕ, String, ◌≡◌, refl, false, Option, List, maybe}
use quant_pilot.Float.{Float}
use quant_pilot.Domain.{Order, Position, MarginInfo, BacktestRun, AuditEvent}
use quant_pilot.PaperBroker.{PaperBroker, get_positions, get_margin}
use quant_pilot.Repository.{Table}
use quant_pilot.Repository.Rows.{OrderOrm}
use quant_pilot.Repository.Runs.{BacktestRunOrm}
use quant_pilot.Repository.Lists.{Newest}
use quant_pilot.Orders.{
  Server, Request, OrderCreate, Payload, World, Response, ok, http_error, require_trading_enabled,
  propose_order, approve_order,
}

-- `enqueue(task, *args)`: the task and its arguments.
pub data Job : Type 0 where
  ingest_ohlcv_job : List String → String → String → Job
  ingest_universe_job : String → Job

pub record IngestOhlcvRequest : Type 0 where
  pub symbols : List String
  pub start : String
  pub end : String

unfoldable pub ingest_ohlcv : IngestOhlcvRequest → Job
ingest_ohlcv body = ingest_ohlcv_job body.symbols body.start body.end

unfoldable pub ingest_universe : String → Job
ingest_universe csv_path = ingest_universe_job csv_path

-- The default limits are 100 orders and 50 runs.
unfoldable pub list_orders :
    {F S : Type 0} → Newest (OrderOrm F) S → ℕ → S → Option (List (Order F))
list_orders newest limit s = quant_pilot.Repository.Lists.list_orders newest limit s

unfoldable pub list_backtests :
    {S : Type 0} → Newest BacktestRunOrm S → ℕ → ℕ → S → Option (List BacktestRun)
list_backtests newest limit offset s =
    quant_pilot.Repository.Lists.list_backtest_runs newest limit offset s

-- A route that is open only with trading enabled.
abbrev pub gated : {A : Type 0} → Server → A → Response A
gated server answer = maybe (require_trading_enabled server) (ok answer) http_error

module _ {F : Type 0} ⦃d : Float F⦄ where
  -- `none` inside is the exception of a position that is no number.
  unfoldable pub positions : Server → PaperBroker F → Response (Option (List (Position F)))
  positions server broker = gated server (get_positions broker)

  unfoldable pub margin : Server → PaperBroker F → Response (MarginInfo F)
  margin server broker = gated server (get_margin broker)

module _ {F S A : Type 0} ⦃d : Float F⦄ (orders : Table (OrderOrm F) S)
    (audit : Table (AuditEvent (Payload F)) A) where
  -- With trading disabled, as it is by default, proposing and approving an order and reading the
  -- positions and the margin are all refused with 403, whatever the second factor, and a refused
  -- request leaves the orders, the audit log and the broker as they were.
  pub trading_disabled :
      (server : Server) (request : Request) (body : OrderCreate F) (order_id : String)
      (w : World F S A)
      → server.trading_enabled ≡ false
      → (propose_order orders audit server request body w ≡ (w, http_error 403))
        × (approve_order orders audit server request order_id w ≡ (w, http_error 403))
        × (positions server w.broker ≡ http_error 403)
        × (margin server w.broker ≡ http_error 403)
  unfolding positions margin propose_order approve_order
  trading_disabled server request body order_id w disabled =
      (rw disabled refl, rw disabled refl, rw disabled refl, rw disabled refl)
