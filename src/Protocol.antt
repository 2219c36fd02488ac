-- ===== src/Protocol.antt =====
-- gate/src/protocol.rs: the framing and the messages of the handshake, status and login phases.
pub mod Base
pub mod Varint
pub mod Utf8
pub mod Cursor
pub mod Messages
pub mod Reader
mod Examples
