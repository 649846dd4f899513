-- ===== src/Hooks.antt =====
-- The hooks service (hooks/src): what the registry's events and tags mean.
pub mod Provenance
pub mod TagRetention
pub mod Registry
pub mod Mount
pub mod Patterns
pub mod Access
pub mod Import
pub mod Internal
pub mod Database
pub mod Events
pub mod Reaper
pub mod Schedule
