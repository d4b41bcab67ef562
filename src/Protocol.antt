-- ===== src/Protocol.antt =====
-- native-host/src/protocol/: the messages between the host and the extension.
pub mod Envelope
pub mod Framing
