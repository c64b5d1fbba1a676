-- ===== src/Tests.antt =====
-- Concrete runs of the code and the theorems at concrete inputs.
mod Setup
mod Payloads
mod Packets
mod Encodings
mod Connections
mod Groups
mod Handlers
mod Deliveries
mod Clients
mod Asyncs
mod Sessions
