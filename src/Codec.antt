-- ===== src/Codec.antt =====
-- What the program takes from Python's struct, socket and text codecs, and its own checksum.
pub mod Pack
pub mod Inet
pub mod Checksum
pub mod Utf8
mod Tests
