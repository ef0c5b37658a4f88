-- ===== src/Simulation.antt =====
-- The fixed-step simulation of the load generator's pipeline (frontend/src/model/simulation.ts).
pub mod Types
pub mod Retry
pub mod Channel
pub mod State
pub mod Ledger
pub mod Invariant
pub mod Completion
pub mod Start
pub mod Workers
pub mod Due
pub mod Delivery
pub mod Production
pub mod Step
pub mod Telemetry
pub mod Run
mod Tests
