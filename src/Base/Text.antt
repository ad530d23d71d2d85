-- ===== src/Base/Text.antt =====
-- Text as its bytes, and decimal numbers.
use castr.Base.Bytes.{Bytes}
use castr.Base.Tests.{ltb, if◌then◌else◌}
use mathlib.Core.List.{[], ◌∷◌, ◌++◌}
use Prim.Native.Nat.{ℕ, zero, suc, ◌+◌, ◌/◌, ◌%◌}
use Prim.Native.String.{String}
use Prim.Native.Char.{code}

-- The bytes of an ASCII text.
abbrev pub ascii : String → Bytes
ascii String.[] = []
ascii (String.◌∷◌ letter text) = code letter ∷ ascii text

-- `Display` of an unsigned number below 10 ^ 20.
unfoldable pub decimal_loop : ℕ → ℕ → Bytes
decimal_loop zero n = []
decimal_loop (suc fuel) n =
    let front = decimal_loop fuel (n / 10) in
    if ltb n 10 then (n + 48) ∷ [] else front ++ ((n % 10 + 48) ∷ [])

unfoldable pub decimal : ℕ → Bytes
decimal n = decimal_loop 20 n
