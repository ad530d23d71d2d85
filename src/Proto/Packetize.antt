-- ===== src/Proto/Packetize.antt =====
-- crates/castr-proto/src/packetize.rs: one encoded frame into datagrams.
pub mod Laws
pub mod Sizes
use Prim.Native.Nat.{bit_or}
use castr.Base.{
  ℕ, ◌+◌, ◌-◌, ◌%◌, max, Bool, Option, none, some, List, [], ◌∷◌, ◌++◌, ltb, ◌==◌, if◌then◌else◌,
  length,
}
use castr.Base.Chunks.{chunks}
use castr.Base.Words.{add32, sub32}
use castr.Base.Bytes.{Bytes}
use castr.Proto.Header.{DatagramHeader, encode, header_len, flag_keyframe, flag_end_of_frame}

pub record Packetizer : Type 0 where
  pub next_frame : ℕ

unfoldable pub new : Packetizer
new = record { next_frame = 0 }

unfoldable pub last_frame_number : Packetizer → ℕ
last_frame_number p = sub32 p.next_frame 1

unfoldable pub fragment_flags : Bool → Bool → ℕ
fragment_flags keyframe last =
    let key = (if keyframe then bit_or 0 flag_keyframe else 0) in
    if last then bit_or key flag_end_of_frame else key

-- The header of fragment `i` of `count`.
unfoldable pub fragment_header : ℕ → Bool → ℕ → ℕ → ℕ → ℕ → DatagramHeader
unfolding fragment_flags
fragment_header stream keyframe timestamp_us frame_number count i = record {
  stream = stream;
  flags = fragment_flags keyframe (i + 1 == count);
  fragment_index = i % 65536;
  fragment_count = count % 65536;
  frame_number = frame_number;
  timestamp_us = timestamp_us;
}

-- The loop over the enumerated chunks, from index `i` on.
unfoldable pub fragments : ℕ → Bool → ℕ → ℕ → ℕ → ℕ → List Bytes → List Bytes
fragments stream keyframe timestamp_us frame_number count i [] = []
fragments stream keyframe timestamp_us frame_number count i (chunk ∷ rest) =
    (encode (fragment_header stream keyframe timestamp_us frame_number count i) ++ chunk)
    ∷ fragments stream keyframe timestamp_us frame_number count (i + 1) rest

unfoldable pub budget : ℕ → ℕ
budget max_datagram = max (max_datagram - header_len) 1

-- `none` is the panic of the assertion: a frame of more than 65535 fragments.
unfoldable pub packetize : Packetizer → ℕ → Bool → ℕ → Bytes → ℕ → Option (Packetizer × List Bytes)
packetize p stream keyframe timestamp_us [] max_datagram = some (p, [])
packetize p stream keyframe timestamp_us (x ∷ xs) max_datagram =
    let parts = chunks (budget max_datagram) (x ∷ xs) in
    let count = length parts in
    if ltb 65535 count
    then none
    else some (
      record { next_frame = add32 p.next_frame 1 },
      fragments stream keyframe timestamp_us p.next_frame count 0 parts,
    )
