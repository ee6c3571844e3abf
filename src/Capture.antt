-- ===== src/Capture.antt =====
-- internal/capture/runner.go: the active sessions of the catalog, whether a window shares its column,
-- the inventory that recovery needs, and the capture that writes a checkpoint.
pub mod Active
pub mod Occupancy
pub mod Inventory
pub mod Run
mod Samples
