-- ===== src/Miracast/Lpcm.antt =====
-- crates/castr-miracast/src/source/lpcm.rs: the header in front of uncompressed audio. A sample is
-- the bit pattern of its `i16`.
pub mod Samples
use castr.Base.{
  ℕ, ◌*◌, ◌+◌, Option, none, some, List, [], ◌∷◌, ◌++◌, ltb, ◌==◌, ◌&&◌, if◌then◌else◌, length,
  get_or, drop,
}
use castr.Base.Bytes.{Bytes, u16_to_be}

abbrev pub header_len : ℕ
header_len = 4

abbrev pub aus_per_frame : ℕ
aus_per_frame = 6

-- 80 samples, two channels, six access units.
abbrev pub samples_per_frame : ℕ
samples_per_frame = 960

abbrev pub substream_id : ℕ
substream_id = 0xa0

abbrev pub format_byte : ℕ
format_byte = 0x11

unfoldable pub sample_bytes : List ℕ → Bytes
sample_bytes [] = []
sample_bytes (s ∷ ss) = u16_to_be s ++ sample_bytes ss

-- `none` is the panic of the assertion.
unfoldable pub frame : List ℕ → Option Bytes
frame samples =
    if length samples == samples_per_frame
    then some (substream_id ∷ aus_per_frame ∷ 0 ∷ format_byte ∷ sample_bytes samples)
    else none

unfoldable pub payload : Bytes → Bytes
payload frame =
    if ltb (length frame) header_len
    then []
    else if get_or frame 0 0 == substream_id && ltb 0 (get_or frame 1 0)
    then drop header_len frame
    else frame

-- The samples of a payload, two bytes each; an odd byte at the end is left out.
unfoldable pub samples_of : Bytes → List ℕ
samples_of [] = []
samples_of (a ∷ []) = []
samples_of (a ∷ b ∷ rest) = (256 * a + b) ∷ samples_of rest
