-- ===== src/Nfs3.antt =====
-- src/nfs: the NFS version 3, MOUNT and portmap procedures.
pub mod Types
pub mod Status
pub mod Files
pub mod Names
pub mod Info
pub mod Listing
pub mod Mount
pub mod Calls
pub mod Directory
pub mod Client
pub mod Failures
pub mod Safety
pub mod Successes
pub mod Requests
