-- ===== src/Lib.antt =====
-- The order path of the trading platform: an order is created by the OMS, decided by the risk
-- service, submitted by the execution service behind the LIVE gate, and followed by the broker's
-- updates; its fills go to the portfolio; mutating API commands pass an idempotency table.
--
-- Files, with the code that each models:
-- - Prelude: shared names; Python's int as ℤ over the native numbers (Prelude/Int), float as any
--   type with the operations that the code uses and no laws (Prelude/Float), exceptions
--   (Prelude/Result), and methods that keep what was written before a raise (Prelude/Action).
-- - Contracts: libs/contracts/models.py, and the messages of libs/events/bus.py by topic. A text is a
--   number that is only compared, copied and tested for 0, the empty text; an instant is a number of
--   microseconds.
-- - Outbox: the outbox helpers of libs/database/sqlite.py, and one round of the relay loop, twenty
--   rows, of services/oms/service.py, which Outbox/Relay and Outbox/Pending are about.
-- - Oms: services/oms. StateMachine is state_machine.py, Repository is repository.py with the
--   constraints of its tables, Service and BrokerUpdates are service.py. Graph is about the table of
--   transitions; Journal, Stable, Handlers, Audit, Past and Final are about the rows of
--   `order_events` and the states that they lead to.
-- - LiveGate: services/risk/live_gate.py; Window and TwoStep are about sequences of calls.
-- - Risk: services/risk/service.py and repository.py. Inputs holds what an evaluation reads, Checks
--   the checks of `evaluate_intent` in their order, Service the decision and the kill switch; Limits, Safety,
--   Modes, Once and Decided are about approvals, modes and repeated deliveries.
-- - Execution: services/execution/service.py and the records of libs/broker_models/adapter.py.
--   Requests, Service (commands, submission, recovery) and Reconcile are the code; Steps is the
--   relation of all entry points over one state, with Single and Submission below it.
-- - Portfolio: services/portfolio. Repository and Service are the code of these names; Balance and
--   Progress are about the application of fills.
-- - Idempotency: services/api_gateway/idempotency.py; Rows, Runs and Replay are about sequences of
--   commands.
-- - RateLimit: services/api_gateway/rate_limiter.py. Log holds the promise, on the record of all that
--   passed, and Window is about sequences of requests. Middleware is RateLimitMiddleware of
--   middleware.py beside it, and Handled is about the requests that it hands on.
-- - CandleBuilder: services/market_data/candle_builder.py. Reference defines the bars from the list of
--   quotes, and Bars compares.
-- - Strategy: what services/strategy/models.py declares for the position manager. Clock, Sizing,
--   StrategyA, Reversal and Manager are position_manager.py, with Flow and Prices below them; Stops,
--   StopsA and StopsLadder are about the trailing stop, PartialExit about the first target. RiskGates
--   is risk_gates.py and ReplayStops is replay_stops.py.
-- - Auth: services/auth/repository.py, and Service is service.py; Rotation and Tickets are about
--   sequences of calls, and Seeding is the default users of a new database.
-- - PaperBroker: services/broker_gateway/paper_adapter.py; Book compares its positions to its trades.
-- - Tests: runs on concrete data.
--
-- State and interaction: each service keeps a record (Oms, Risk, LiveGate, Execution, Portfolio,
-- Gateway, Builder, AuthService, PaperBroker), the limiter keeps its history, and the position manager
-- changes the trade that it is given. The tables of a database are lists of rows in the order of
-- insertion, and a repository method is one transaction, which commits whole or not at all. The bus is the list of the
-- messages published: the dispatcher delivers them to handlers one at a time, which a Step stands for
-- in any order. What `generate_id`, `utc_now`, the broker, the health services, regular expressions
-- and hashes return are arguments; two instants that one call reads for the same row are one.
--
-- Recursion is on lists throughout; no fuel is used. The bounds of the code are kept: fifty orders in
-- the search for a decided order, five hundred in recovery and reconciliation, twenty outbox rows.
--
-- Not modelled: the start and stop of services and their endless loops, logging, the interleaving of
-- two handlers at their awaits (a Step runs a handler as a whole), exceptions of the health services
-- and of the portfolio, the loss of an update by SQLite, `get_status` of the gate; the reading of
-- "HH:MM" settings; signals, feeds, the network adapters and sessions of brokers, the HTTP routes and
-- the other middlewares, the audit log, the frontend and offline research.
pub mod Prelude
pub mod Contracts
pub mod Outbox
pub mod Oms
pub mod LiveGate
pub mod RateLimit
pub mod CandleBuilder
pub mod Strategy
pub mod Auth
pub mod PaperBroker
pub mod Risk
pub mod Execution
pub mod Idempotency
pub mod Portfolio
pub mod Tests
