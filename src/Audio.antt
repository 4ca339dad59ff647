-- ===== src/Audio.antt =====
-- The audio buffers: src/ring_buffer.cpp and src/jitter_buffer.cpp.
pub mod Circular
pub mod Ring
pub mod Jitter
pub mod Codec
