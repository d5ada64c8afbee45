-- ===== src/Serialiser.antt =====
-- src/serialiser/include/: the buffer that values are written to and read from, and the header of
-- the YaS protocol.
pub mod IoBuffer
pub mod YaS
mod Tests
