-- ===== src/Media.antt =====
-- crates/castr-media: when a frame is shown, and how many bits it may take.
pub mod Jitter
pub mod Clock
pub mod Bitrate
mod Tests
