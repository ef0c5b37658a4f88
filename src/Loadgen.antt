-- ===== src/Loadgen.antt =====
-- The types that the adapters and the views share: frontend/src/model/loadgen.ts.
mod Snapshots
mod Commands
pub use Snapshots.*
pub use Commands.*
