-- ===== src/Packet.antt =====
-- src/protocol/packet
pub mod PacketType
pub mod KeepAlive
pub mod Acknowledgement
pub mod Message
pub mod Packet
