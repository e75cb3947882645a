-- ===== src/Tests.antt =====
-- Runs of the definitions at small inputs, and the theorems at them.
mod Pipe
mod Transport
mod Formats
mod Requests
mod Replies
mod Version4
mod Clients4
mod Bench
