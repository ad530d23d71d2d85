-- ===== src/Codec.antt =====
-- crates/castr-codec-v4l2: the receiver's hardware decoder.
pub mod Annexb
pub mod Queue
mod Tests
