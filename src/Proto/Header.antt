-- ===== src/Proto/Header.antt =====
-- crates/castr-proto/src/header.rs: the 20-byte header of every media datagram.
pub mod Codec
use Prim.Native.Nat.{bit_and}
use castr.Base.{
  ℕ, ◌<◌, Bool, not, ◌&&◌, ◌∷◌, ◌++◌, Result, ok, err, ltb, ◌==◌, if◌then◌else◌, length, get_or,
  drop,
}
use castr.Base.Words.{IsU8, IsU16, IsU32, IsU64}
use castr.Base.Bytes.{Bytes, u16_to_le, u32_to_le, u64_to_le, u16_from_le, u32_from_le, u64_from_le}

abbrev pub header_len : ℕ
header_len = 20

abbrev pub stream_video : ℕ
stream_video = 0

abbrev pub stream_audio : ℕ
stream_audio = 1

abbrev pub flag_keyframe : ℕ
flag_keyframe = 1

abbrev pub flag_end_of_frame : ℕ
flag_end_of_frame = 2

pub record DatagramHeader : Type 0 where
  pub stream : ℕ
  pub flags : ℕ
  pub fragment_index : ℕ
  pub fragment_count : ℕ
  pub frame_number : ℕ
  pub timestamp_us : ℕ

pub data HeaderError : Type 0 where
  too_short : HeaderError
  unknown_stream : ℕ → HeaderError

-- The bytes that `encode` leaves in its 20-byte buffer, whatever was there.
unfoldable pub encode : DatagramHeader → Bytes
encode h =
    h.stream
    ∷ h.flags
    ∷ (u16_to_le h.fragment_index
        ++ (u16_to_le h.fragment_count
            ++ (0 ∷ 0 ∷ (u32_to_le h.frame_number ++ u64_to_le h.timestamp_us))))

-- The fields as `decode` reads them, at fixed offsets.
unfoldable pub fields : Bytes → DatagramHeader
fields buf =
    let b : ℕ → ℕ = λ i. get_or buf i 0 in
    record {
      stream = b 0;
      flags = b 1;
      fragment_index = u16_from_le (b 2) (b 3);
      fragment_count = u16_from_le (b 4) (b 5);
      frame_number = u32_from_le (b 8) (b 9) (b 10) (b 11);
      timestamp_us = u64_from_le (b 12) (b 13) (b 14) (b 15) (b 16) (b 17) (b 18) (b 19);
    }

unfoldable pub decode : Bytes → Result (DatagramHeader × Bytes) HeaderError
decode buf =
    if ltb (length buf) header_len
    then err too_short
    else (let stream = get_or buf 0 0 in
        if not (stream == stream_video) && not (stream == stream_audio)
        then err (unknown_stream stream)
        else ok (fields buf, drop header_len buf))

unfoldable pub is_keyframe : DatagramHeader → Bool
is_keyframe h = not (bit_and h.flags flag_keyframe == 0)

unfoldable pub is_end : DatagramHeader → Bool
is_end h = not (bit_and h.flags flag_end_of_frame == 0)

-- Each field is in the range of its Rust type, and the stream is one that the protocol knows.
pub record IsValid (h : DatagramHeader) : Type 0 where
  pub known : h.stream < 2
  pub flags : IsU8 h.flags
  pub index : IsU16 h.fragment_index
  pub count : IsU16 h.fragment_count
  pub frame : IsU32 h.frame_number
  pub time : IsU64 h.timestamp_us
