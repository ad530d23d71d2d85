-- ===== src/Base/Words.antt =====
-- Machine words as native numbers below a power of two. Sums wrap as the release build's do.
use Prim.Native.Nat.{ℕ, ◌+◌, ◌-◌, ◌%◌, ◌^◌, ◌<◌}
use mathlib.Core.Bool.{Bool}
use castr.Base.Tests.{ltb, leb}

abbrev pub IsU8 : ℕ → Type 0
IsU8 a = a < 256

abbrev pub IsU16 : ℕ → Type 0
IsU16 a = a < 65536

abbrev pub IsU32 : ℕ → Type 0
IsU32 a = a < 2 ^ 32

abbrev pub IsU64 : ℕ → Type 0
IsU64 a = a < 2 ^ 64

-- `wrapping_add` and `wrapping_sub` of each width.
abbrev pub add16 : ℕ → ℕ → ℕ
add16 a b = (a + b) % 65536

abbrev pub sub16 : ℕ → ℕ → ℕ
sub16 a b = (a + 65536 - b) % 65536

abbrev pub add32 : ℕ → ℕ → ℕ
add32 a b = (a + b) % 2 ^ 32

abbrev pub sub32 : ℕ → ℕ → ℕ
sub32 a b = (a + 2 ^ 32 - b) % 2 ^ 32

abbrev pub add64 : ℕ → ℕ → ℕ
add64 a b = (a + b) % 2 ^ 64

abbrev pub sub64 : ℕ → ℕ → ℕ
sub64 a b = (a + 2 ^ 64 - b) % 2 ^ 64

-- An `i64` is its bit pattern, so that `as i64` and `as u64` are the identity; the order of two
-- patterns as signed numbers is that of the patterns with the sign bit flipped.
abbrev pub bias64 : ℕ → ℕ
bias64 a = (a + 2 ^ 63) % 2 ^ 64

abbrev pub ltb_i64 : ℕ → ℕ → Bool
ltb_i64 a b = ltb (bias64 a) (bias64 b)

abbrev pub leb_i64 : ℕ → ℕ → Bool
leb_i64 a b = leb (bias64 a) (bias64 b)
