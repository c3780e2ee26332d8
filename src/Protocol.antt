-- ===== src/Protocol.antt =====
-- crates/protocol: the messages, the choice of a codec and the framing of the byte stream.
pub mod Message
pub mod Frame
