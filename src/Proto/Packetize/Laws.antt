-- ===== src/Proto/Packetize/Laws.antt =====
-- What the datagrams of a frame hold.
use castr.Base.{ℕ, suc, ◌+◌, ◌<◌, ◌≡◌, refl, ap, arith, List, [], ◌∷◌, Bool, length, ◌==◌}
use castr.Base.Bytes.{Bytes}
use castr.Base.Words.{IsU32, IsU64}
use castr.Proto.Header.{DatagramHeader, is_keyframe, is_end, IsValid}
use castr.Proto.Packetize.{fragment_header, fragments}

module _ (stream : ℕ) (keyframe : Bool) (timestamp_us frame_number count : ℕ) where
  abbrev header : ℕ → DatagramHeader
  header i = fragment_header stream keyframe timestamp_us frame_number count i

  pub length-fragments :
      (i : ℕ) (cs : List Bytes)
      → length (fragments stream keyframe timestamp_us frame_number count i cs) ≡ length cs
  unfolding fragments
  length-fragments i [] = refl
  length-fragments i (c ∷ cs) = ap suc (length-fragments (i + 1) cs)

  pub fragment_header-IsValid :
      (i : ℕ) → stream < 2 → IsU64 timestamp_us → IsU32 frame_number → IsValid (header i)
  unfolding fragment_header
  fragment_header-IsValid i s t f = ground arith

  -- Every fragment carries the keyframe mark of its frame.
  pub is_keyframe-fragment : (i : ℕ) → is_keyframe (header i) ≡ keyframe
  unfolding fragment_header is_keyframe
  is_keyframe-fragment i = ground arith

  -- The end mark stands on the last of the fragments and on no other.
  pub is_end-fragment : (i : ℕ) → is_end (header i) ≡ (i + 1 == count)
  unfolding fragment_header is_end
  is_end-fragment i = ground arith
