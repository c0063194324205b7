-- ===== src/IoStream.antt =====
-- The package channel/io_stream/.
pub mod Frame
pub mod Reader
pub mod Receive
