-- ===== src/Portfolio.antt =====
-- The portfolio (services/portfolio): executions, positions and the profit and loss.
pub mod Repository
pub mod Service
pub mod Balance
pub mod Progress
