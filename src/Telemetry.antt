-- ===== src/Telemetry.antt =====
-- internal/telemetry/metrics.go: the counters and the health and readiness endpoints.
pub mod Registry
pub mod Health
pub mod Ready
pub mod Counting
pub mod Courses
pub mod Accounts
mod Examples
