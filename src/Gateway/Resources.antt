-- ===== src/Gateway/Resources.antt =====
-- gateway/internal/resources/manager.go: the in-memory view of the watched Secrets.
pub mod State
pub mod Mirror
pub mod Sent
pub mod Sync
pub mod SyncLaws
pub mod EventLaws
pub mod Delays
pub mod DelayLaws
pub mod Run
pub mod RunLaws
pub mod Quiet
pub mod Progress
pub mod Manager
pub mod Moves
pub mod Interleaving
pub mod Steps
pub mod ManagerLaws
