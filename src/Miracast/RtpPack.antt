-- ===== src/Miracast/RtpPack.antt =====
-- crates/castr-miracast/src/source/rtp_pack.rs: transport packets into RTP datagrams.
pub mod RoundTrip
use castr.Base.{ℕ, ◌*◌, List, [], ◌∷◌, ◌++◌}
use castr.Base.Chunks.{chunks}
use castr.Base.Words.{add16}
use castr.Base.Bytes.{Bytes, u16_to_be, u32_to_be}

abbrev pub payload_type : ℕ
payload_type = 33

abbrev pub packets_per_datagram : ℕ
packets_per_datagram = 7

-- `ts::PACKET_LEN`
abbrev pub packet_len : ℕ
packet_len = 188

pub record Packetizer : Type 0 where
  pub ssrc : ℕ
  pub sequence : ℕ

unfoldable pub new : ℕ → Packetizer
new ssrc = record { ssrc = ssrc; sequence = 0 }

unfoldable pub datagram : ℕ → ℕ → ℕ → Bytes → Bytes
datagram ssrc sequence timestamp_90k group =
    0x80
    ∷ payload_type
    ∷ (u16_to_be sequence ++ (u32_to_be timestamp_90k ++ (u32_to_be ssrc ++ group)))

-- The loop over the groups.
unfoldable pub push_groups : Packetizer → List Bytes → ℕ → Packetizer × List Bytes
push_groups p [] timestamp_90k = (p, [])
push_groups p (group ∷ rest) timestamp_90k =
    let (p', ds) = push_groups (record p { sequence = add16 p.sequence 1 }) rest timestamp_90k in
    (p', datagram p.ssrc p.sequence timestamp_90k group ∷ ds)

unfoldable pub push : Packetizer → Bytes → ℕ → Packetizer × List Bytes
push p ts_packets timestamp_90k =
    push_groups p (chunks (packets_per_datagram * packet_len) ts_packets) timestamp_90k
