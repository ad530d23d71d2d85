-- ===== src/Base/Bytes.antt =====
-- Bytes, and the little- and big-endian forms of the words.
use Prim.Native.Nat.{ℕ, ◌+◌, ◌*◌, ◌/◌, ◌%◌, ◌^◌, ◌<◌}
use mathlib.Core.List.{List, [], ◌∷◌}
use mathlib.Core.Path.{◌≡◌, refl}
use mathlib.Core.Logic.{◌↔◌}
use mathlib.Core.Bool.{Bool, true, false, ◌&&◌}
use native.Mathlib.Omega.{arith}
use castr.Base.Tests.{◌==◌}

abbrev pub Bytes : Type 0
Bytes = List ℕ

abbrev pub IsByte : ℕ → Type 0
IsByte b = b < 256

abbrev pub u16_to_le : ℕ → Bytes
u16_to_le a = a % 256 ∷ a / 256 % 256 ∷ []

abbrev pub u32_to_le : ℕ → Bytes
u32_to_le a = a % 256 ∷ a / 256 % 256 ∷ a / 65536 % 256 ∷ a / 16777216 % 256 ∷ []

abbrev pub u16_from_le : ℕ → ℕ → ℕ
u16_from_le a b = a + 256 * b

abbrev pub u32_from_le : ℕ → ℕ → ℕ → ℕ → ℕ
u32_from_le a b c d = a + 256 * b + 65536 * c + 16777216 * d

abbrev pub u16_to_be : ℕ → Bytes
u16_to_be a = a / 256 % 256 ∷ a % 256 ∷ []

abbrev pub u32_to_be : ℕ → Bytes
u32_to_be a = a / 16777216 % 256 ∷ a / 65536 % 256 ∷ a / 256 % 256 ∷ a % 256 ∷ []

abbrev pub u16_from_be : ℕ → ℕ → ℕ
u16_from_be a b = 256 * a + b

abbrev pub u32_from_be : ℕ → ℕ → ℕ → ℕ → ℕ
u32_from_be a b c d = 16777216 * a + 65536 * b + 256 * c + d

abbrev pub u64_to_le : ℕ → Bytes
u64_to_le a =
    a % 256
    ∷ a / 256 % 256
    ∷ a / 65536 % 256
    ∷ a / 16777216 % 256
    ∷ a / 2 ^ 32 % 256
    ∷ a / 2 ^ 40 % 256
    ∷ a / 2 ^ 48 % 256
    ∷ a / 2 ^ 56 % 256
    ∷ []

abbrev pub u64_from_le : ℕ → ℕ → ℕ → ℕ → ℕ → ℕ → ℕ → ℕ → ℕ
u64_from_le a b c d e f g h = u32_from_le a b c d + 2 ^ 32 * u32_from_le e f g h

-- `==` of byte slices.
unfoldable pub bytes_eq : Bytes → Bytes → Bool
bytes_eq [] [] = true
bytes_eq [] (y ∷ ys) = false
bytes_eq (x ∷ xs) [] = false
bytes_eq (x ∷ xs) (y ∷ ys) = x == y && bytes_eq xs ys

pub bytes_eq_iff : (xs ys : Bytes) → (bytes_eq xs ys ≡ true) ↔ (xs ≡ ys)
unfolding bytes_eq
bytes_eq_iff [] [] = ((λ e. refl), (λ e. refl))
bytes_eq_iff [] (y ∷ ys) = ((λ e. cc), (λ e. cc))
bytes_eq_iff (x ∷ xs) [] = ((λ e. cc), (λ e. cc))
bytes_eq_iff (x ∷ xs) (y ∷ ys) = ground (arith, bytes_eq_iff xs ys)
