-- ===== src/Dispatcher.antt =====
-- internal/dispatcher/dispatcher.go: admission of HTTP requests, and their way to a worker.
pub mod Queue
pub mod Body
pub mod Serve
pub mod Balance
mod Examples
