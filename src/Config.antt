-- ===== src/Config.antt =====
-- config/config.go: the frameworks, the ports of their servers, and requests to their control
-- routes.
pub mod Ports
pub mod Control
pub mod Sampling
pub mod Dials
pub mod Pids
pub mod LocalHost
pub mod Processes
