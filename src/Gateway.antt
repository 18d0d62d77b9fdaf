-- ===== src/Gateway.antt =====
-- The gateway: the process that watches Secrets and serves them over HTTP.
pub mod Exposure
pub mod Auth
pub mod ClientIp
pub mod Snapshot
pub mod Resources
pub mod Server
pub mod Config
pub mod Metrics
pub mod Kubernetes
pub mod Main
