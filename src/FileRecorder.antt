-- ===== src/FileRecorder.antt =====
-- The messages of the file recorder (score/mw/log/detail/file_recorder).
pub mod MessageBuilder
pub mod Messages
pub mod Reading
mod Tests
