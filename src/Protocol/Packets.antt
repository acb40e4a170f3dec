-- ===== src/Protocol/Packets.antt =====
-- packets/: the packets that are read and written on the way to the game. A packet's fields are the
-- source's; its `decode` reads the payload of a frame, its `encode` writes it.
pub mod Handshake
pub mod Login
pub mod Config
