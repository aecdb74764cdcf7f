-- ===== src/Resources.antt =====
-- internal/resources: the CPUs and the memory that the runtime may use, from cgroup files and the runtime.
pub mod Types
pub mod Parse
pub mod CpuSet
pub mod Membership
pub mod Place
pub mod Detect
pub mod Counted
pub mod Listed
pub mod Evidence
pub mod Inside
pub mod Found
pub mod Detected
mod Examples
