-- ===== src/Rpc.antt =====
-- src/rpc: ONC RPC over TCP with record marking.
pub mod Message
pub mod Reply
pub mod Socket
pub mod Client
pub mod Transport
pub mod Network
