-- ===== src/Moq.antt =====
-- The MOQ wire format: src/moq_protocol.cpp and include/panaudia/moq_protocol.h.
mod Tests
pub mod Varint
pub mod Reader
pub mod Namespace
pub mod Params
pub mod Framing
pub mod Messages
pub mod Datagram
