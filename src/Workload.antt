-- ===== src/Workload.antt =====
-- internal/workload: the workloads' specifications, how they are resolved and kept.
pub mod Model
pub mod Resolve
pub mod Checked
pub mod Resolved
pub mod Registry
pub mod Build
pub mod Named
mod Examples
