-- ===== src/Stream.antt =====
-- internal/mirror: the bytes between a terminal and its attachment, in both directions.
pub mod Search
pub mod Queries
pub mod Decoder
pub mod Gate
mod Samples
