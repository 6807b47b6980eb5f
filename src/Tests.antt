-- ===== src/Tests.antt =====
-- The theorems at concrete inputs.
mod Protocol
mod Report
mod Bench
mod Machine
mod Servers
mod Runs
mod Files
mod Client
