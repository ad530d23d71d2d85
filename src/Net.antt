-- ===== src/Net.antt =====
-- crates/castr-net: what the sender keeps for repair.
pub mod Retransmit
pub mod Repair
mod Tests
