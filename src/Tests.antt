-- ===== src/Tests.antt =====
-- Runs of the code at concrete inputs, and the theorems at them.
pub mod Server
pub mod Delivery
pub mod Clients
pub mod Listeners
pub mod Resources
pub mod Agent
pub mod Commit
pub mod Settings
pub mod Certificates
pub mod Polling
pub mod Startup
pub mod Exits
