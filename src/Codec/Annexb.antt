-- ===== src/Codec/Annexb.antt =====
-- crates/castr-codec-v4l2/src/annexb.rs: what a byte stream of NAL units holds.
pub mod Units
use Prim.Native.Nat.{bit_and}
use castr.Base.{
  ℕ, zero, suc, Bool, true, false, ◌&&◌, ◌||◌, List, [], ◌∷◌, ◌++◌, Result, ok, err, ◌==◌,
  if◌then◌else◌, take,
}
use castr.Base.Bytes.{Bytes, bytes_eq}

unfoldable pub starts_with_start_code : Bytes → Bool
starts_with_start_code bytes =
    bytes_eq (take 3 bytes) (0 ∷ 0 ∷ 1 ∷ []) || bytes_eq (take 4 bytes) (0 ∷ 0 ∷ 0 ∷ 1 ∷ [])

-- The low five bits of the byte behind a start code, if there is one.
unfoldable pub unit_at : Bytes → List ℕ
unit_at [] = []
unit_at (b ∷ rest) = bit_and b 31 ∷ []

-- The `while` loop, with `skip` bytes to go past before it looks again: 2 behind the first byte of
-- a start code.
unfoldable pub nal_types_from : ℕ → Bytes → List ℕ
nal_types_from skip [] = []
nal_types_from (suc skip) (x ∷ rest) = nal_types_from skip rest
nal_types_from zero (x ∷ []) = []
nal_types_from zero (x ∷ y ∷ []) = []
nal_types_from zero (x ∷ y ∷ z ∷ rest) =
    let found = x == 0 && y == 0 && z == 1 in
    let later = nal_types_from (if found then 2 else 0) (y ∷ z ∷ rest) in
    if found then unit_at rest ++ later else later

unfoldable pub nal_types : Bytes → List ℕ
nal_types bytes = nal_types_from 0 bytes

unfoldable pub contains : List ℕ → ℕ → Bool
contains [] n = false
contains (x ∷ xs) n = x == n || contains xs n

unfoldable pub has_sps : Bytes → Bool
has_sps bytes = contains (nal_types bytes) 7

unfoldable pub is_idr : Bytes → Bool
is_idr bytes = contains (nal_types bytes) 5

pub data AccessUnitError : Type 0 where
  empty_access_unit : AccessUnitError
  no_start_code : AccessUnitError

-- `Ok(())` is `ok true`.
unfoldable pub check_access_unit : Bytes → Result Bool AccessUnitError
check_access_unit [] = err empty_access_unit
check_access_unit (x ∷ xs) = if starts_with_start_code (x ∷ xs) then ok true else err no_start_code
