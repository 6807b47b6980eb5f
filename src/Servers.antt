-- ===== src/Servers.antt =====
-- frameworks: what the benchmark's Go servers share.
pub mod Echo
pub mod Control
pub mod Listen
pub mod Handlers
