-- ===== src/Recovery.antt =====
-- internal/mirror/session_recovery.go: the shared coordinator that schedules host probes and admits
-- at most two pending attachments.
pub mod Request
pub mod Inventory
pub mod State
pub mod Admission
pub mod Probe
pub mod Exchange
pub mod Roster
pub mod History
mod Samples
