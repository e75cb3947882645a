-- ===== src/Nfs4.antt =====
-- src/nfs4: the operations of NFS version 4. src/nfs4_client.cpp: the client of version 4.0.
pub mod Types
pub mod Bitmap
pub mod Attr
pub mod Compound
pub mod Ops
pub mod State
pub mod Requests
pub mod Session
pub mod Calls
pub mod Grace
pub mod Client
