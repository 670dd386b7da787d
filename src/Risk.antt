-- ===== src/Risk.antt =====
-- Pre-trade risk (services/risk): the checks on an order intent, and the service that records the
-- decisions.
pub mod Inputs
pub mod Checks
pub mod Service
pub mod Limits
pub mod Safety
pub mod Modes
pub mod Once
pub mod Decided
