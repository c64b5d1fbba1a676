-- ===== src/Session.antt =====
-- src/protocol/session.h and session.cpp: the connection to the server.
pub mod State
pub mod Wire
pub mod Machine
pub mod Invariant
pub mod Loop
pub mod Nonce
pub mod Framing
pub mod Stall
pub mod Calls
pub mod Follows
pub mod Fuel
pub mod Chunks
