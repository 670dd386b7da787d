-- ===== src/Tests.antt =====
-- Runs of the code on concrete data, and the instances of the theorems at them.
mod Values
mod Processing
mod Limits
mod Gates
mod Positions
mod Gateway
mod Sessions
mod Trades
mod Paper
