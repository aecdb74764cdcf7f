-- ===== src/Protocol.antt =====
-- internal/protocol: frames and messages between the server and a worker.
pub mod Frame
pub mod Framing
pub mod Accepted
pub mod Messages
pub mod Conn
pub mod Exchange
pub mod Conversation
mod Examples
