-- ===== src/Miracast/TsMux.antt =====
-- crates/castr-miracast/src/source/ts_mux.rs: access units into a transport stream. Masks and
-- shifts are remainders and quotients, and `|` of fields that share no bit is their sum.
pub mod Packets
pub mod Tables
pub mod Video
pub mod RoundTrip
use Prim.Native.Nat.{bit_or, bit_xor}
use castr.Base.{
  ℕ, zero, suc, ◌-◌, ◌+◌, ◌*◌, ◌/◌, ◌%◌, ◌^◌, min, Bool, true, false, not, ◌&&◌, Option, none, some,
  List, [], ◌∷◌, ◌++◌, ltb, ◌==◌, if◌then◌else◌, length, take, drop, replicate, is_empty, is_some,
  unwrap_or, flatten,
}
use castr.Base.Words.{add32}
use castr.Base.Maps.{lookup, insert}
use castr.Base.Bytes.{Bytes, u16_to_be, u32_to_be}
use castr.Miracast.Ts.{packet_len, stream_type_h264, stream_type_lpcm}
use castr.Miracast.Lpcm
use castr.Miracast.Lpcm.{samples_per_frame}

abbrev pub pmt_pid : ℕ
pmt_pid = 0x1000

abbrev pub video_pid : ℕ
video_pid = 0x1011

abbrev pub audio_pid : ℕ
audio_pid = 0x1100

abbrev pub program_number : ℕ
program_number = 1

abbrev pub stream_id_video : ℕ
stream_id_video = 0xe0

abbrev pub stream_id_private_1 : ℕ
stream_id_private_1 = 0xbd

abbrev pub table_interval_packets : ℕ
table_interval_packets = 40

abbrev pub audio_frame_us : ℕ
audio_frame_us = 10000

unfoldable pub pts_bytes : ℕ → Bytes
pts_bytes pts_90k =
    (0x21 + pts_90k / 2 ^ 30 % 8 * 2)
    ∷ (pts_90k / 2 ^ 22 % 256)
    ∷ (pts_90k / 2 ^ 15 % 128 * 2 + 1)
    ∷ (pts_90k / 2 ^ 7 % 256)
    ∷ (pts_90k % 128 * 2 + 1)
    ∷ []

-- `pts_us * 9 / 100`, in 64 bits.
abbrev pub ticks_of : ℕ → ℕ
ticks_of pts_us = pts_us * 9 % 2 ^ 64 / 100

unfoldable pub pes_with_stuffing : ℕ → Bytes → ℕ → Bool → ℕ → Bytes
pes_with_stuffing stream_id payload pts_us bounded stuffing =
    let declared = (if bounded then (length payload + 5 + stuffing + 3) % 65536 else 0) in
    0
    ∷ 0
    ∷ 1
    ∷ stream_id
    ∷ (declared / 256 % 256)
    ∷ (declared % 256)
    ∷ 0x80
    ∷ 0x80
    ∷ ((5 + stuffing) % 256)
    ∷ (pts_bytes (ticks_of pts_us) ++ (replicate stuffing 255 ++ payload))

unfoldable pub pes : ℕ → Bytes → ℕ → Bool → Bytes
unfolding pes_with_stuffing
pes stream_id payload pts_us bounded = pes_with_stuffing stream_id payload pts_us bounded 0

-- One bit of the checksum.
unfoldable pub crc32_bit : ℕ → ℕ
crc32_bit crc =
    let shifted = crc * 2 % 2 ^ 32 in
    if crc / 2 ^ 31 % 2 == 1 then bit_xor shifted 0x04c11db7 else shifted

unfoldable pub crc32_bits : ℕ → ℕ → ℕ
crc32_bits zero crc = crc
crc32_bits (suc n) crc = crc32_bits n (crc32_bit crc)

unfoldable pub crc32_loop : ℕ → Bytes → ℕ
crc32_loop crc [] = crc
crc32_loop crc (byte ∷ rest) = crc32_loop (crc32_bits 8 (bit_xor crc (byte * 2 ^ 24))) rest

unfoldable pub crc32 : Bytes → ℕ
crc32 bytes = crc32_loop 0xffffffff bytes

unfoldable pub section : ℕ → Bytes → Bytes
section table_id body =
    let s = table_id ∷ (u16_to_be (bit_or 0xb000 (length body + 4)) ++ body) in
    s ++ u32_to_be (crc32 s)

unfoldable pub pat_section : Bytes
pat_section = section 0 (
    u16_to_be program_number
    ++ (0xc1 ∷ 0 ∷ 0 ∷ (u16_to_be program_number ++ u16_to_be (bit_or 0xe000 pmt_pid))))

unfoldable pub level_idc : ℕ → ℕ
level_idc level_bitmap =
    if level_bitmap == 0x02
    then 32
    else if level_bitmap == 0x04
    then 40
    else if level_bitmap == 0x08
    then 41
    else if level_bitmap == 0x10
    then 42
    else 31

-- One entry of the program map.
unfoldable pub stream_entry : ℕ → ℕ → Bytes → Bytes
stream_entry stream_type pid descriptors =
    stream_type
    ∷ (u16_to_be (bit_or 0xe000 pid)
        ++ (u16_to_be (bit_or 0xf000 (length descriptors)) ++ descriptors))

unfoldable pub pmt_section : ℕ → ℕ → Bytes
pmt_section profile_bitmap level_bitmap =
    let (profile_idc, constraints) =
      (let choice : ℕ × ℕ = (if profile_bitmap == 0x02 then (100, 0x0c) else (66, 0xc0)) in
        choice) in
    let video_descriptors =
      0x28
      ∷ 0x04
      ∷ profile_idc
      ∷ constraints
      ∷ level_idc level_bitmap
      ∷ 0x3f
      ∷ 0x2a
      ∷ 0x02
      ∷ 0x7e
      ∷ 0x1f
      ∷ [] in
    section 2 (
      u16_to_be program_number
      ++ (0xc1
          ∷ 0
          ∷ 0
          ∷ (u16_to_be (bit_or 0xe000 video_pid)
              ++ (u16_to_be 0xf000
                  ++ (stream_entry stream_type_h264 video_pid video_descriptors
                      ++ stream_entry stream_type_lpcm audio_pid
                          (0x83 ∷ 0x02 ∷ 0x46 ∷ 0x2f ∷ []))))))

-- `p.resize(n, v)`
abbrev pub resize : Bytes → ℕ → ℕ → Bytes
resize p n v = take n p ++ replicate (n - length p) v

unfoldable pub section_packet : ℕ → Bytes → ℕ → Bytes
section_packet pid section cc =
    resize (0x47 ∷ (0x40 + pid / 256 % 256 % 32) ∷ (pid % 256) ∷ (0x10 + cc % 16) ∷ 0 ∷ section)
      packet_len 255

unfoldable pub pcr_bytes : ℕ → Bytes
pcr_bytes pcr_90k =
    (pcr_90k / 2 ^ 25 % 256)
    ∷ (pcr_90k / 2 ^ 17 % 256)
    ∷ (pcr_90k / 2 ^ 9 % 256)
    ∷ (pcr_90k / 2 % 256)
    ∷ (pcr_90k % 2 * 128 + 0x7e)
    ∷ 0
    ∷ []

pub record Muxer : Type 0 where
  pub cc : List (ℕ × ℕ)
  pub since_tables : ℕ
  pub audio_pending : List ℕ
  pub next_audio_pts_us : Option ℕ
  pub h264_profile : ℕ
  pub h264_level : ℕ

unfoldable pub new : Muxer
new = record {
  cc = [];
  since_tables = 0;
  audio_pending = [];
  next_audio_pts_us = none;
  h264_profile = 1;
  h264_level = 1;
}

unfoldable pub set_h264_format : Muxer → ℕ → ℕ → Muxer
set_h264_format m profile level = record m {
  h264_profile = profile;
  h264_level = level;
  since_tables = 0;
}

unfoldable pub next_cc : Muxer → ℕ → Muxer × ℕ
next_cc m pid =
    let c = (unwrap_or (lookup pid m.cc) 15 + 1) % 16 in (record m { cc = insert pid c m.cc }, c)

-- The tables, as packets: `tables_if_due` answers them one behind the other.
unfoldable pub tables_if_due : Muxer → Muxer × List Bytes
tables_if_due m =
    if not (m.since_tables == 0) && ltb m.since_tables table_interval_packets
    then (m, [])
    else (let (m1, pat_cc) = next_cc (record m { since_tables = 0 }) 0 in
        let (m2, pmt_cc) = next_cc m1 pmt_pid in
        (
          m2,
          section_packet 0 pat_section pat_cc
              ∷ section_packet pmt_pid (pmt_section m.h264_profile m.h264_level) pmt_cc
              ∷ [],
        ))

-- The clock reference in the first packet's adaptation field.
unfoldable pub first_field : Bool → Option ℕ → Option Bytes
first_field true (some pcr) = some (0x10 ∷ pcr_bytes pcr)
first_field true none = none
first_field false pcr_90k = none

-- The room that an adaptation field leaves for payload.
abbrev pub capacity : Option Bytes → ℕ
capacity none = packet_len - 4
capacity (some v) = packet_len - 4 - (1 + length v)

-- A short packet is filled up by growing its adaptation field.
unfoldable pub padded_field : Option Bytes → ℕ → Option Bytes
padded_field af remaining =
    let want = packet_len - 5 - remaining in
    let v = unwrap_or af [] in
    let v' = (if is_empty v && ltb 0 want then 0 ∷ v else v) in
    if ltb remaining (capacity af) then some (resize v' want 255) else af

unfoldable pub field_bytes : Option Bytes → Bytes
field_bytes none = []
field_bytes (some v) = (length v % 256) ∷ v

-- The bytes of one packet.
unfoldable pub packet_of : ℕ → Bool → ℕ → Option Bytes → Bytes → Bytes
packet_of pid first cc af payload =
    0x47
    ∷ ((if first then 0x40 else 0) + pid / 256 % 256 % 32)
    ∷ (pid % 256)
    ∷ ((if is_some af then 0x30 else 0x10) + cc % 16)
    ∷ (field_bytes af ++ payload)

-- The `while` loop over the bytes that are left, as a list of its packets. Each turn takes a byte
-- at least.
unfoldable pub packetize_loop : ℕ → Muxer → ℕ → Bytes → Bool → Option ℕ → Muxer × List Bytes
packetize_loop zero m pid rest first pcr_90k = (m, [])
packetize_loop (suc fuel) m pid [] first pcr_90k = (m, [])
packetize_loop (suc fuel) m pid (x ∷ xs) first pcr_90k =
    let remaining = length (x ∷ xs) in
    let af = padded_field (first_field first pcr_90k) remaining in
    let n = min remaining (capacity af) in
    let (m1, cc) = next_cc m pid in
    let (m2, out) =
      packetize_loop fuel (record m1 { since_tables = add32 m1.since_tables 1 }) pid
        (drop n (x ∷ xs)) false pcr_90k in
    (m2, packet_of pid first cc af (take n (x ∷ xs)) ∷ out)

unfoldable pub packetize : Muxer → ℕ → Bytes → Option ℕ → Muxer × List Bytes
packetize m pid pes pcr_90k = packetize_loop (length pes) m pid pes true pcr_90k

-- The bytes that `push_video` answers are those of these packets, one behind the other.
unfoldable pub video_packets : Muxer → Bytes → ℕ → Muxer × List Bytes
video_packets m au pts_us =
    let (m1, tables) = tables_if_due m in
    let (m2, out) =
      packetize m1 video_pid (pes stream_id_video au pts_us false) (some (ticks_of pts_us)) in
    (m2, tables ++ out)

unfoldable pub push_video : Muxer → Bytes → ℕ → Muxer × Bytes
push_video m au pts_us = let (m', out) = video_packets m au pts_us in (m', flatten out)

-- The source's loop over its pictures, with the packets of each behind those of the one before.
unfoldable pub mux_all : Muxer → List (Bytes × ℕ) → Muxer × List Bytes
mux_all m [] = (m, [])
mux_all m ((au, pts_us) ∷ rest) =
    let (m1, out) = video_packets m au pts_us in
    let (m2, more) = mux_all m1 rest in (m2, out ++ more)

-- `frame_pts.saturating_add(AUDIO_FRAME_US)`
abbrev pub later_pts : ℕ → ℕ
later_pts pts_us = min (pts_us + audio_frame_us) (2 ^ 64 - 1)

-- The loop over whole frames of the samples that wait. `none` is the panic of `frame`.
unfoldable pub audio_loop : ℕ → Muxer → ℕ → Option (Muxer × List Bytes)
audio_loop zero m pts_us = some (m, [])
audio_loop (suc fuel) m pts_us =
    let samples = take samples_per_frame m.audio_pending in
    let frame_pts = unwrap_or m.next_audio_pts_us pts_us in
    let (m1, tables) = tables_if_due (record m {
      audio_pending = drop samples_per_frame m.audio_pending;
      next_audio_pts_us = some (later_pts frame_pts);
    }) in
    elim (ltb (length m.audio_pending) samples_per_frame) [
      | true ↦ some (m, [])
      | false ↦ elim (Lpcm.frame samples) [
        | none ↦ none
        | some frame ↦
            (let (m2, out) =
                packetize m1 audio_pid
                  (pes_with_stuffing stream_id_private_1 frame frame_pts true 2) none in
              elim (audio_loop fuel m2 pts_us) [
                | none ↦ none
                | some (m3, more) ↦ some (m3, tables ++ (out ++ more))
              ])
      ]
    ]

-- Each turn takes 960 of the samples that wait, so that their number is fuel enough.
unfoldable pub push_audio : Muxer → List ℕ → ℕ → Option (Muxer × Bytes)
push_audio m samples pts_us =
    let m1 : Muxer = record m {
      audio_pending = m.audio_pending ++ samples;
      next_audio_pts_us = (if is_empty m.audio_pending then some pts_us else m.next_audio_pts_us);
    } in
    elim (audio_loop (length m1.audio_pending) m1 pts_us) [
      | none ↦ none
      | some (m2, out) ↦ some (m2, flatten out)
    ]
