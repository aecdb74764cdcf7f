-- ===== src/Worker.antt =====
-- internal/worker: the pool of one workload. Each child models the code of one group of methods.
pub mod Types
pub mod Restarts
pub mod Boot
pub mod Monitor
pub mod Scale
pub mod Acquire
pub mod Release
pub mod Snapshot
pub mod Shutdown
pub mod System
pub mod Environment
pub mod Start
pub mod Backoff
mod Examples
