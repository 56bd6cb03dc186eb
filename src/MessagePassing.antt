-- ===== src/MessagePassing.antt =====
-- The server of the router that keeps a session for each client process
-- (score/datarouter/src/daemon/message_passing_server.cpp and its header).
pub mod Session
pub mod Server
pub mod Worker
pub mod Consistency
pub mod Events
pub mod Taking
pub mod Rounds
pub mod Endings
pub mod Ticks
pub mod Queued
pub mod Progress
mod Tests
