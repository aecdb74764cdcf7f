-- ===== src/Server.antt =====
-- internal/server/server.go: the routes that `New` registers, and the order of `Run` and `shutdown`.
pub mod Routes
pub mod Run
pub mod Mux
mod Examples
