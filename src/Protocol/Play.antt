-- ===== src/Protocol/Play.antt =====
-- packets/play/: the packets of the game that the proxy reads or sends itself.
pub mod Small
pub mod Texts
pub mod World
pub mod Join
pub mod Commands
