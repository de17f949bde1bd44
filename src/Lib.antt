-- ===== src/Lib.antt =====
-- The order path, the backtests, the books and the data of quant-pilot. The repository is a
-- research and trading system: an API takes orders through a gate and hands them to a broker, and
-- takes backtests that a worker runs; a repository keeps both, an engine simulates and prices
-- trades and limits risk, a cache keeps prices, and data checks decide which symbols may be used.
--
-- The parts and their files:
--
--   Base, Base/Int, Base/Dict   shared names: Boolean tests, lists, integers, Python dictionaries
--   Float, Float/Fixed          Python's float as a record of operations with law records, and a
--                               fixed-point instance (six decimal places) on which the tests run
--   Domain                      src/quant_pilot/domain/models.py: the entities
--   PaperBroker                 src/quant_pilot/adapters/broker/paper_broker.py: `class PaperBroker`
--   Orders                      src/quant_pilot/api/routers/orders.py, the kill switch endpoints of
--                               api/routers/system.py, api/security/auth.py and db/session.py
--   System                      src/quant_pilot/config/settings.py, api/security/headers.py, the
--                               middleware of api/main.py, and the health checks of
--                               api/routers/system.py
--   Migrations                  src/quant_pilot/db/migrations/versions, against the tables of
--                               src/quant_pilot/adapters/persistence/models.py
--   SmartApi                    src/quant_pilot/adapters/broker/smartapi_broker.py
--   Repository                  src/quant_pilot/adapters/persistence/repository.py: orders, audit;
--                               Repository/Runs backtest runs, Repository/Configs strategy configs
--                               and instruments, Repository/Memberships universe rows,
--                               Repository/Lists the lists
--   Api                         src/quant_pilot/api/routers/backtests.py, data.py and sweep.py; in
--                               Api/Portfolio portfolio.py, the lists and the ingestion routes; in
--                               Api/Curves the equity curve from the worker to the reader
--   Engine                      src/quant_pilot/engine/backtest/engine.py
--   MarketData                  src/quant_pilot/adapters/data/parquet_cache.py, yfinance_provider.py
--   Stores                      src/quant_pilot/adapters/artifacts/local_store.py and
--                               adapters/secrets/keyring_store.py
--   Costs, Impact               src/quant_pilot/engine/backtest/costs.py and impact.py
--   Universe                    src/quant_pilot/engine/data/universe.py, and the query
--                               `get_universe_membership` of the repository
--   Quality                     src/quant_pilot/engine/data/quality.py and corporate_actions.py
--   Risk/Drawdown, Risk/Sizing  src/quant_pilot/engine/risk/drawdown.py, position_sizing.py, var.py
--   Analysis                    src/quant_pilot/engine/analysis/performance.py; Analysis/Significance
--                               validation.py, Analysis/Attribution attribution.py
--   Options                     src/quant_pilot/engine/models/black_scholes.py
--   Simulation                  src/quant_pilot/engine/models/monte_carlo.py, and
--                               `reversion_robustness` of engine/strategies/pairs_trading.py
--   Momentum                    src/quant_pilot/engine/strategies/momentum.py
--   Pairs                       src/quant_pilot/engine/strategies/pairs_trading.py: the position
--                               machine of `pair_leg_weights`; Pairs/Selection its `select_pairs` and
--                               `generate_weights`; Pairs/OuProcess engine/models/ou_process.py and
--                               engine/strategies/cointegration.py
--   Worker/Jobs                 src/quant_pilot/workers/queue.py (the in-memory queue) and
--                               api/routers/jobs.py
--   Worker/Backtest             src/quant_pilot/workers/tasks.py: `run_backtest`
--   Worker/Compute              src/quant_pilot/workers/tasks.py: `execute_backtest` and
--                               `sweep_parameter`, over Momentum, Engine and Analysis
--   Worker/Prices               src/quant_pilot/workers/tasks.py: the prices of a run from the cache
--   Worker/Unpriced             `run_backtest` with that computation
--   Worker/Redis                src/quant_pilot/workers/queue.py (the queue of RQ) and scheduler.py
--   Worker/Ingest               src/quant_pilot/workers/tasks.py: `ingest_universe`, `ingest_ohlcv`
--   Live                        src/quant_pilot/live/reconciliation.py, slippage.py and pnl.py
--
-- How they interact: a handler of Orders takes the server's world (the stored orders, the audit
-- log and the broker of the process) and returns it with a response. `approve_order` runs the
-- gates, reads the order from the Repository, places it with the PaperBroker, saves the result
-- and appends an audit event; `in_transaction` is the session of a request, whose rollback does
-- not reach the broker. The broker prices a fill with Impact and Costs. A method of a class is a
-- function from the object's state to the new state and the result, under the method's name; a
-- leading underscore is dropped (`_fill` is `fill`). Exceptions and HTTP errors are values.
--
-- Numbers: counts, days and seconds are native naturals, quantities are integers, and Python's
-- integers are unbounded, so there is no overflow to model. Floats are any type with the
-- operations of `Float`; a theorem that needs arithmetic takes a law record, whose laws hold of
-- IEEE doubles. Loops are structural recursion over lists, or over a number of rounds that the
-- source has: the progress stream its 600 events, the implied volatility its iterations and its
-- bisection of 200 rounds, the bootstrap its entries. So no fuel is added.
--
-- A run of the worker goes from Worker/Prices, which reads the cache of MarketData, to Momentum,
-- which turns closes into target weights, to Engine, which fills them on the next open, and to
-- Analysis.
--
-- Parameters: the SQLAlchemy session is a `Table` with the laws `IsTable`; the one-time password
-- check, the drawn identifiers, the clock, numpy's minimum, pandas' median, running maximum and
-- rolling z-score, and in Worker/Backtest the computation of a backtest are arguments. So are the
-- file system, the parquet files, the sort of a frame's index, whether the database takes the
-- writes of a request, the download of prices, the client of the vendor's broker, the keychain,
-- and the regressions and the sorting of numpy and statsmodels; the functions of `math`, the
-- random generator with the state it passes on, the moments, distributions and matrix operations
-- of numpy and scipy, RQ, the headers of Starlette with its middleware, and what Alembic does to
-- a database. Not modelled: a database that fails while a backtest or an ingestion writes to it,
-- the rendering of texts and JSON, HTTP, logging, how settings are read from the environment, the
-- wiring of dependencies and the protocols of the ports, and the frontend.
pub mod Api
pub mod Base
pub mod Float
pub mod Domain
pub mod Costs
pub mod Impact
pub mod PaperBroker
pub mod Universe
pub mod Repository
pub mod Orders
pub mod Risk
pub mod Quality
pub mod Live
pub mod Pairs
pub mod Momentum
pub mod Analysis
pub mod Worker
pub mod MarketData
pub mod Engine
pub mod Stores
pub mod SmartApi
pub mod System
pub mod Migrations
pub mod Options
pub mod Simulation
