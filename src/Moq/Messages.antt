-- ===== src/Moq/Messages.antt =====
-- The control messages of src/moq_protocol.cpp, a module for each family. `content` and
-- `content_len` are a list of bytes, which a parser reads from offset 0. An output parameter is
-- the value of the result; a message that is refused leaves none.
pub mod Keys
pub mod Setup
pub mod Subscribe
pub mod SubscribeOk
pub mod Announce
pub mod Laws
