-- ===== src/Sizing.antt =====
-- internal/sizing: the advice on the number of workers.
pub mod Advice
mod Advised
mod Examples
