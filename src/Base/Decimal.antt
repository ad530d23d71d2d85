-- ===== src/Base/Decimal.antt =====
-- A decimal number is read back.
use castr.Base.Bytes.{Bytes}
use castr.Base.Text.{decimal_loop, decimal}
use castr.Base.Strings.{digit_of, digits_value, parse_unsigned}
use castr.Base.Tests.{ltb, Bool-cases}
use castr.Base.Lists.{All, All-append}
use Prim.Native.Nat.{ℕ, zero, suc, ◌+◌, ◌*◌, ◌/◌, ◌%◌, ◌<◌, ◌≤◌}
use mathlib.Core.Path.{refl, ◌≡◌, ap, ◌∙◌}
use mathlib.Core.Logic.{◌⊎◌, inl, inr}
use mathlib.Core.Bool.{false}
use mathlib.Core.List.{[], ◌∷◌, ◌++◌}
use mathlib.Core.Option.{some, some-injective}
use native.Mathlib.Omega.{arith}

abbrev pub IsDigit : ℕ → Type 0
IsDigit c = (48 ≤ c) × (c ≤ 57)

-- The fuel is enough for the digits of the number.
abbrev Enough : ℕ → ℕ → Type 0
Enough zero n = ⊥
Enough (suc fuel) n = (n < 10) ⊎ Enough fuel (n / 10)

pub digits_value-nil : (bound : ℕ) → digits_value 10 bound 0 [] ≡ some 0
unfolding digits_value
digits_value-nil bound = refl

pub digits_value-append :
    (radix bound n k : ℕ) (xs ys : Bytes)
    → digits_value radix bound n xs ≡ some k
    → digits_value radix bound n (xs ++ ys) ≡ digits_value radix bound k ys
unfolding digits_value
digits_value-append radix bound n k [] ys h =
    ap (λ m. digits_value radix bound m ys) (some-injective _ _ h)
digits_value-append radix bound n k (x ∷ xs) ys h =
    ground (arith, digits_value-append radix bound (n * radix + digit_of x) k xs ys)

pub digits_value-digit :
    (bound k d n : ℕ)
    → d < 10
    → n ≡ k * 10 + d
    → n < bound
    → digits_value 10 bound k ((d + 48) ∷ []) ≡ some n
unfolding digits_value digit_of
digits_value-digit bound k d n h e b = ground arith

ltb-absurd : (n : ℕ) → n < 10 → ltb n 10 ≡ false → ⊥
ltb-absurd n h l = ground arith

decimal_loop-value :
    (fuel n bound : ℕ)
    → Enough fuel n
    → n < bound
    → digits_value 10 bound 0 (decimal_loop fuel n) ≡ some n
unfolding decimal_loop
decimal_loop-value zero n bound e b = absurd e
decimal_loop-value (suc fuel) n bound e b = elim (Bool-cases (ltb n 10)) [
  | inl small ↦ rw (small) (digits_value-digit bound 0 n n (ground arith) (omega arith) b)
  | inr large ↦ rw (large) (
      digits_value-append 10 bound 0 (n / 10) (decimal_loop fuel (n / 10)) ((n % 10 + 48) ∷ [])
        (decimal_loop-value fuel (n / 10) bound (more e large) (omega arith))
      ∙ digits_value-digit bound (n / 10) (n % 10) n (omega arith) (omega arith) b)
]
  where
    more : (n < 10) ⊎ Enough fuel (n / 10) → ltb n 10 ≡ false → Enough fuel (n / 10)
    more (inl h) l = absurd (ltb-absurd n h l)
    more (inr h) l = h

decimal_loop-IsDigit : (fuel n : ℕ) → All IsDigit (decimal_loop fuel n)
unfolding decimal_loop
decimal_loop-IsDigit zero n = tt
decimal_loop-IsDigit (suc fuel) n = elim (Bool-cases (ltb n 10)) [
  | inl small ↦ rw (small) ((ground arith, ground arith), tt)
  | inr large ↦ rw (large) (
      All-append IsDigit (decimal_loop fuel (n / 10)) ((n % 10 + 48) ∷ [])
        (decimal_loop-IsDigit fuel (n / 10)) ((omega arith, omega arith), tt))
]

abbrev pub NonEmptyDigits : Bytes → Type 0
NonEmptyDigits [] = ⊥
NonEmptyDigits (c ∷ s) = IsDigit c

pub nonempty_append :
    (xs : Bytes) (d : ℕ) → All IsDigit xs → IsDigit d → NonEmptyDigits (xs ++ (d ∷ []))
nonempty_append [] d a h = h
nonempty_append (x ∷ xs) d a h = a.0

decimal-NonEmptyDigits : (n : ℕ) → NonEmptyDigits (decimal n)
unfolding decimal decimal_loop
decimal-NonEmptyDigits n = elim (Bool-cases (ltb n 10)) [
  | inl small ↦ rw (small) (ground arith, ground arith)
  | inr large ↦ rw (large) (
      nonempty_append (decimal_loop 19 (n / 10)) (n % 10 + 48) (decimal_loop-IsDigit 19 (n / 10))
        (omega arith, omega arith))
]

pub decimal-IsDigit : (n : ℕ) → All IsDigit (decimal n)
unfolding decimal
decimal-IsDigit n = decimal_loop-IsDigit 20 n

pub parse_unsigned-digits :
    (bound n : ℕ) (s : Bytes)
    → NonEmptyDigits s
    → digits_value 10 bound 0 s ≡ some n
    → parse_unsigned 10 bound s ≡ some n
unfolding parse_unsigned
parse_unsigned-digits bound n [] e h = absurd e
parse_unsigned-digits bound n (c ∷ s) e h = ground (arith, e, h)

decimal-value :
    (n bound : ℕ) → Enough 20 n → n < bound → digits_value 10 bound 0 (decimal n) ≡ some n
unfolding decimal
decimal-value n bound e b = decimal_loop-value 20 n bound e b

-- A number below ten million that is printed is read as itself, where it fits.
pub parse_unsigned-decimal :
    (n bound : ℕ) → n < 10000000 → n < bound → parse_unsigned 10 bound (decimal n) ≡ some n
parse_unsigned-decimal n bound h b =
    parse_unsigned-digits bound n (decimal n) (decimal-NonEmptyDigits n)
      (decimal-value n bound (inr (inr (inr (inr (inr (inr (inl (omega arith)))))))) b)
