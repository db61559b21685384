-- ===== src/Protocol.antt =====
-- packages/protocol/src.
pub mod Utf8
pub mod Chunk
pub mod FieldFrames
pub mod Messages
pub mod Mutators
pub mod App
