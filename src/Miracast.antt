-- ===== src/Miracast.antt =====
-- crates/castr-miracast: the Wi-Fi Display sink and source.
pub mod Lifecycle
pub mod Quality
pub mod Rtp
pub mod RtpPack
pub mod Dhcp
pub mod Lpcm
pub mod Ts
pub mod TsMux
pub mod Wfd
pub mod Caps
pub mod Rtsp
pub mod Source
pub mod Sink
pub mod Select
pub mod Pairing
mod Tests
mod Handshake
