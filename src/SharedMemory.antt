-- ===== src/SharedMemory.antt =====
-- score/mw/log/detail/data_router/shared_memory: records of typed data between a logging process and
-- the router of the log.
pub mod Records
pub mod Writer
pub mod Reader
pub mod Reading
pub mod RoundTrip
pub mod Undisturbed
pub mod Writing
mod Tests
