-- ===== src/Oms.antt =====
-- The order management system (services/oms): its state machine, its tables and its handlers.
pub mod StateMachine
pub mod Repository
pub mod Service
pub mod BrokerUpdates
pub mod Graph
pub mod Journal
pub mod Stable
pub mod Handlers
pub mod Audit
pub mod Past
pub mod Final
