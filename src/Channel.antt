-- ===== src/Channel.antt =====
-- The DLT channel: the headers of a message (dlt_headers.h) and the buffered UDP output
-- (dlt_log_channel.h, dlt_log_channel.cpp, udp_stream_output.cpp).
pub mod Headers
pub mod Decoding
pub mod State
pub mod Output
pub mod Statistics
pub mod Specification
mod Buffers
mod Batches
mod Packets
mod Refinement
pub mod Delivery
pub mod Sequences
pub mod Guarantees
pub mod Interleaving
pub mod Sizes
mod Tests
