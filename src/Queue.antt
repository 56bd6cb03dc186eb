-- ===== src/Queue.antt =====
-- The wait-free producer queue, score/mw/log/detail/wait_free_producer_queue.
pub mod Bytes
pub mod ControlBlock
pub mod LinearWriter
pub mod LinearReader
pub mod RoundTrip
pub mod Drain
pub mod Concurrent
pub mod Alternating
mod Tests
