-- ===== src/Types.antt =====
-- src/types and src/protocol/protocol.h
pub mod Bytes
pub mod Flags
pub mod Iter
pub mod Ids
pub mod Bits
