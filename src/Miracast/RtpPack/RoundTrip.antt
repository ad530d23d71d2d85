-- ===== src/Miracast/RtpPack/RoundTrip.antt =====
-- The sink reads back what the source packs, and the window passes it on.
use castr.Base.{
  ℕ, ◌/◌, ◌%◌, ◌^◌, ◌<◌, ◌≡◌, refl, ap, ◌∙◌, arith, Option, none, some, List, [], ◌∷◌, ◌++◌,
  flatten,
}
use castr.Base.Chunks.{chunks, flatten-chunks}
use castr.Base.Words.{add16, IsU32}
use castr.Base.Bytes.{Bytes, u16_from_be, u32_from_be}
use castr.Miracast.Rtp.{Packet, parse, packet_at, new}
use castr.Miracast.Rtp.Window.{Consecutive, push_all, push_all-Consecutive}
use castr.Miracast.RtpPack.{Packetizer, datagram, push_groups, push}

u16_be_lem : (a : ℕ) → a < 65536 → u16_from_be (a / 256 % 256) (a % 256) ≡ a
u16_be_lem a h = omega arith

u32_be_lem :
    (a : ℕ)
    → a < 2 ^ 32
    → u32_from_be (a / 16777216 % 256) (a / 65536 % 256) (a / 256 % 256) (a % 256) ≡ a
u32_be_lem a h = omega arith

packet : ℕ → ℕ → Bytes → Packet
packet sequence timestamp group = record {
  sequence = sequence;
  timestamp = timestamp;
  payload_type = 33;
  payload = group;
}

parse-datagram :
    (ssrc sequence timestamp : ℕ) (group : Bytes)
    → sequence < 65536
    → IsU32 timestamp
    → parse (datagram ssrc sequence timestamp group) ≡ some (packet sequence timestamp group)
unfolding parse packet_at datagram packet
parse-datagram ssrc sequence timestamp group s t =
    ground (arith, u16_be_lem sequence, u32_be_lem timestamp)

-- The packets that a sink reads from datagrams, if it reads them all.
unfoldable pub parse_all : List Bytes → Option (List Packet)
parse_all [] = some []
parse_all (d ∷ ds) = elim (parse d) [
  | none ↦ none
  | some p ↦ elim (parse_all ds) [ none ↦ none | some ps ↦ some (p ∷ ps) ]
]

abbrev pub payloads : List Packet → Bytes
payloads [] = []
payloads (p ∷ ps) = p.payload ++ payloads ps

packets : ℕ → ℕ → List Bytes → List Packet
packets sequence timestamp [] = []
packets sequence timestamp (g ∷ gs) =
    packet sequence timestamp g ∷ packets (add16 sequence 1) timestamp gs

parse_all-push_groups :
    (p : Packetizer) (groups : List Bytes) (timestamp : ℕ)
    → p.sequence < 65536
    → IsU32 timestamp
    → parse_all (push_groups p groups timestamp).1 ≡ some (packets p.sequence timestamp groups)
unfolding parse_all push_groups packets
parse_all-push_groups p [] timestamp s t = refl
parse_all-push_groups p (g ∷ gs) timestamp s t =
    let p' : Packetizer = record p { sequence = add16 p.sequence 1 } in
    ground (
      arith,
      parse-datagram p.ssrc p.sequence timestamp g,
      parse_all-push_groups p' gs timestamp (omega arith) t,
    )

packets-Consecutive :
    (sequence timestamp : ℕ) (groups : List Bytes)
    → Consecutive sequence (packets sequence timestamp groups)
unfolding packets packet
packets-Consecutive sequence timestamp [] = tt
packets-Consecutive sequence timestamp (g ∷ gs) =
    (refl, packets-Consecutive (add16 sequence 1) timestamp gs)

payloads-packets :
    (sequence timestamp : ℕ) (groups : List Bytes)
    → payloads (packets sequence timestamp groups) ≡ flatten groups
unfolding packets packet
payloads-packets sequence timestamp [] = refl
payloads-packets sequence timestamp (g ∷ gs) =
    ap (λ t. g ++ t) (payloads-packets (add16 sequence 1) timestamp gs)

-- Whatever transport packets the source packs, from whatever sequence number on, the sink's parser
-- reads every datagram, the reordering window gives the packets out at once and counts none as
-- lost, and their payloads are the transport stream, unchanged.
pub parse_all-push :
    (p : Packetizer) (ts_packets : Bytes) (timestamp window : ℕ)
    → p.sequence < 65536
    → IsU32 timestamp
    → (ps : List Packet) × (parse_all (push p ts_packets timestamp).1 ≡ some ps)
      × ((push_all (new window) ps).1 ≡ ps)
      × ((push_all (new window) ps).0.lost ≡ 0)
      × (payloads ps ≡ ts_packets)
unfolding push
parse_all-push p ts_packets timestamp window s t =
    let groups = chunks 1316 ts_packets in
    let ps = packets p.sequence timestamp groups in
    let (a, b) =
      push_all-Consecutive window p.sequence ps s
        (packets-Consecutive p.sequence timestamp groups) in
    (
      ps,
      parse_all-push_groups p groups timestamp s t,
      a,
      b,
      payloads-packets p.sequence timestamp groups ∙ flatten-chunks 1316 ts_packets (omega arith),
    )
