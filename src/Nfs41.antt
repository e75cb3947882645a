-- ===== src/Nfs41.antt =====
-- src/nfs41_client.cpp: the client of version 4.1.
pub mod Client
pub mod Setup
pub mod Actions
pub mod Answers
pub mod Opens
pub mod Handshake
pub mod Slots
pub mod Safety
