-- ===== src/Agent/Fetch.antt =====
-- agent/internal/fetch/fetch.go
pub mod Install
pub mod Sync
pub mod FrameLaws
pub mod TempLaws
pub mod InstallLaws
pub mod Atomic
pub mod FreshLaws
pub mod Commit
pub mod Recorded
pub mod RoundTrip
pub mod Reverted
pub mod Poll
pub mod PollLaws
