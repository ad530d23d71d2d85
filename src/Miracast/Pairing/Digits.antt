-- ===== src/Miracast/Pairing/Digits.antt =====
-- The PINs that are made are those that a source accepts.
use castr.Base.{
  ℕ, zero, suc, ◌+◌, ◌/◌, ◌%◌, ◌<◌, ◌≡◌, refl, sym, ap, ◌∙◌, arith, true, some, [], ◌∷◌, ◌++◌,
  ==_refl, length, take, drop, All, All-append, length-append, take-length_append,
  drop-length_append,
}
use castr.Base.Bytes.{Bytes}
use castr.Base.Text.{decimal, decimal_loop}
use castr.Base.Strings.{parse_unsigned, digits_value, u32_bound}
use castr.Base.Decimal.{
  IsDigit, nonempty_append, digits_value-nil, digits_value-append, digits_value-digit,
  parse_unsigned-digits, decimal-IsDigit, parse_unsigned-decimal,
}
use castr.Miracast.Pairing.{checksum, padded, pin_from, all_digits, matches, is_valid}

-- The number has no digit beyond the width.
abbrev Within : ℕ → ℕ → Type 0
Within zero n = n ≡ 0
Within (suc width) n = Within width (n / 10)

padded-IsDigit : (width n : ℕ) → All IsDigit (padded width n)
unfolding padded
padded-IsDigit zero n = tt
padded-IsDigit (suc width) n =
    All-append IsDigit (padded width (n / 10)) ((n % 10 + 48) ∷ []) (padded-IsDigit width (n / 10))
      ((omega arith, omega arith), tt)

length-padded : (width n : ℕ) → length (padded width n) ≡ width
unfolding padded
length-padded zero n = refl
length-padded (suc width) n =
    length-append (padded width (n / 10)) ((n % 10 + 48) ∷ [])
    ∙ omega (arith, length-padded width (n / 10))

padded-value :
    (width n bound : ℕ)
    → Within width n
    → n < bound
    → digits_value 10 bound 0 (padded width n) ≡ some n
unfolding padded
padded-value zero n bound w b = digits_value-nil bound ∙ ap some (sym w)
padded-value (suc width) n bound w b =
    digits_value-append 10 bound 0 (n / 10) (padded width (n / 10)) ((n % 10 + 48) ∷ [])
      (padded-value width (n / 10) bound w (omega arith))
    ∙ digits_value-digit bound (n / 10) (n % 10) n (omega arith) (omega arith) b

padded_seven : (n : ℕ) → n < 10000000 → parse_unsigned 10 u32_bound (padded 7 n) ≡ some n
unfolding padded
padded_seven n h =
    parse_unsigned-digits u32_bound n (padded 7 n)
      (nonempty_append (padded 6 (n / 10)) (n % 10 + 48) (padded-IsDigit 6 (n / 10))
        (omega arith, omega arith))
      (padded-value 7 n u32_bound (omega arith) (omega arith))

checksum-digit : (n : ℕ) → checksum n < 10
unfolding checksum
checksum-digit n = omega arith

length-decimal_digit : (c : ℕ) → c < 10 → length (decimal c) ≡ 1
unfolding decimal decimal_loop
length-decimal_digit c h = ground arith

all_digits-All : (s : Bytes) → All IsDigit s → all_digits s ≡ true
unfolding all_digits
all_digits-All [] a = refl
all_digits-All (c ∷ s) a = ground (arith, all_digits-All s a.1, a.0)

matches-checksum : (value : ℕ) → matches (some value) (some (checksum value)) ≡ true
unfolding matches
matches-checksum value = ==_refl (checksum value)

is_valid-append :
    (s : Bytes) (value : ℕ)
    → length s ≡ 7
    → All IsDigit s
    → parse_unsigned 10 u32_bound s ≡ some value
    → is_valid (s ++ decimal (checksum value)) ≡ true
unfolding is_valid
is_valid-append s value l a p =
    let c = checksum value in
    let e : length (s ++ decimal c) ≡ 8 =
      length-append s (decimal c)
      ∙ omega (arith, l, length-decimal_digit c (checksum-digit value)) in
    let t : take 7 (s ++ decimal c) ≡ s =
      ap (λ k. take k (s ++ decimal c)) (sym l) ∙ take-length_append s (decimal c) in
    let d : drop 7 (s ++ decimal c) ≡ decimal c =
      ap (λ k. drop k (s ++ decimal c)) (sym l) ∙ drop-length_append s (decimal c) in
    let q =
      parse_unsigned-decimal c u32_bound (omega (arith, checksum-digit value))
        (omega (arith, checksum-digit value)) in
    let g =
      all_digits-All (s ++ decimal c) (All-append IsDigit s (decimal c) a (decimal-IsDigit c)) in
    rw (e, g, t, d, p, q, matches-checksum value) refl

-- Whatever the entropy, the PIN is one that a source accepts: eight digits, the last of them the
-- checksum of the others.
pub is_valid-pin_from : (entropy : ℕ) → is_valid (pin_from entropy) ≡ true
unfolding pin_from
is_valid-pin_from entropy =
    let value = entropy % 10000000 in
    is_valid-append (padded 7 value) value (length-padded 7 value) (padded-IsDigit 7 value)
      (padded_seven value (omega arith))
