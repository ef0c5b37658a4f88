-- ===== src/Hooks.antt =====
-- The hooks that present snapshots and controls (frontend/src/hooks).
pub mod PauseFrozen
pub mod DesiredControl
pub mod SnapshotHook
mod Tests
