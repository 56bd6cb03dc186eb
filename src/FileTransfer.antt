-- ===== src/FileTransfer.antt =====
-- The transfer of files over DLT: the packages (dlt_protocol.h) and the reading of a file
-- (filetransfer_stream.cpp).
pub mod Packages
pub mod Arguments
pub mod Copies
pub mod PackageArguments
pub mod Encoding
pub mod Contents
mod Tests
