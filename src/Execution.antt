-- ===== src/Execution.antt =====
-- The execution service (services/execution/service.py): the submission of approved orders to the
-- broker, and the reconciliation of live orders with the broker's evidence.
pub mod Requests
pub mod Service
pub mod Reconcile
pub mod Single
pub mod Submission
pub mod Steps
pub mod Guards
pub mod Fills
