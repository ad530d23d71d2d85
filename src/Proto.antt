-- ===== src/Proto.antt =====
-- crates/castr-proto: the datagram header, fragmentation and reassembly, the control channel.
pub mod Header
pub mod Control
pub mod Session
pub mod Packetize
pub mod Reassemble
pub mod RoundTrip
mod Tests
