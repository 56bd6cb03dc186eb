-- ===== src/DltFormat.antt =====
-- score/mw/log/detail/common/dlt_format.cpp: arguments in the payload of a verbose message.
pub mod Payload
pub mod Arguments
pub mod Strings
pub mod Buffers
pub mod TypeInformation
pub mod Numbers
mod Tests
