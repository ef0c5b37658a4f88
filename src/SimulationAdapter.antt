-- ===== src/SimulationAdapter.antt =====
-- The adapter that drives the simulation in the browser: frontend/src/adapters/SimulationAdapter.ts.
pub mod Ranges
pub mod Snapshot
pub mod Machine
mod Tests
