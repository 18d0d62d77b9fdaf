-- ===== src/Agent.antt =====
-- The agent: the process on a host that fetches exposures and installs them as files.
pub mod Settings
pub mod Client
pub mod Disk
pub mod Fetch
pub mod Config
pub mod Select
pub mod Metrics
pub mod Main
