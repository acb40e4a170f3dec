-- ===== src/Protocol.antt =====
-- crates/infrarust_protocol/src: the wire format of the Minecraft protocol.
pub mod Words
pub mod Error
pub mod VarInt
pub mod VarLong
pub mod Codec
pub mod Version
pub mod Packets
pub mod Play
pub mod Registry
pub mod Dispatch
pub mod Frames
