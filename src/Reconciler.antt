-- ===== src/Reconciler.antt =====
-- internal/worker/manager.go and internal/reconciler/reconciler.go: one pool for each workload, and
-- the pass that makes the pools follow the registry.
pub mod Manager
pub mod Fresh
pub mod Pass
pub mod Follows
mod Examples
