-- ===== src/Bench.antt =====
-- tools/bench: the benchmark over `NFSClient`, which times a workload in several threads.
pub mod Stats
pub mod Client
pub mod Fill
pub mod Workloads
pub mod Run
pub mod Counts
