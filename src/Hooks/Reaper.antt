-- ===== src/Hooks/Reaper.antt =====
-- hooks/src/util/imageRetention.ts: which images are obsolete, and how they are removed.
pub mod Settings
pub mod Like
pub mod Selection
pub mod Guard
pub mod Removal
pub mod Kept
pub mod Confirmed
pub mod Complete
pub mod Reasons
pub mod Pulled
pub mod Job
