-- ===== src/DltServer.antt =====
-- The DLT log server of the data router: score/datarouter/{src,include}/daemon.
pub mod Ids
pub mod Maps
pub mod Config
pub mod Server
pub mod Routing
pub mod Filtering
pub mod Loading
pub mod Startup
pub mod Saving
pub mod Commands
pub mod Levels
pub mod Sending
pub mod Recipients
pub mod Assignments
pub mod Routable
pub mod Invariant
pub mod Delivery
pub mod Responses
mod Tests
