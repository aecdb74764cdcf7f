-- ===== src/Scaling.antt =====
-- internal/scaling: how many workers a workload should have.
pub mod Floats
pub mod Strategy
pub mod Bounds
pub mod Hysteresis
pub mod Decisions
pub mod Patience
pub mod Cooldown
mod Examples
