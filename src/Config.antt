-- ===== src/Config.antt =====
-- internal/config: the configuration, from the YAML file and the flags to the values that the server runs on.
pub mod Types
pub mod Defaults
pub mod File
pub mod Paths
pub mod Apply
pub mod Workloads
pub mod Validation
pub mod Load
pub mod Sized
pub mod Distinct
pub mod Validated
pub mod Defaulted
pub mod Refused
mod Examples
