-- ===== src/Io.antt =====
-- The folder io/: byte orders, and streams of bytes.
pub mod Codec
pub mod Platform
pub mod Stream
pub mod Memory
pub mod Dynamic
pub mod Text
pub mod Leb
pub mod Substream
pub mod Cache
