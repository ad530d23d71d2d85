-- ===== src/Base/Strings.antt =====
-- The operations of Rust's `str` that the protocol texts go through. A text is its bytes in UTF-8.
use castr.Base.Bytes.{Bytes, bytes_eq}
use castr.Base.Tests.{ltb, leb, ◌==◌, if◌then◌else◌, is_some}
use castr.Base.Lists.{length, drop, is_empty}
use Prim.Native.Nat.{ℕ, zero, suc, ◌+◌, ◌-◌, ◌*◌, ◌/◌, ◌%◌}
use mathlib.Core.Bool.{Bool, true, false, ◌&&◌, ◌||◌}
use mathlib.Core.List.{List, [], ◌∷◌, ◌++◌, map}
use mathlib.Core.Option.{Option, none, some}

-- `strip_prefix`
abbrev pub strip_prefix : Bytes → Bytes → Option Bytes
strip_prefix [] s = some s
strip_prefix (p ∷ ps) [] = none
strip_prefix (p ∷ ps) (c ∷ s) = if p == c then strip_prefix ps s else none

abbrev pub starts_with : Bytes → Bytes → Bool
starts_with prefix s = is_some (strip_prefix prefix s)

abbrev pub contains : Bytes → Bytes → Bool
contains needle [] = is_empty needle
contains needle (c ∷ s) = starts_with needle (c ∷ s) || contains needle s

-- How many bytes follow a first byte of a character, or 4 where it cannot be one.
follow_len : ℕ → ℕ
follow_len b =
    if ltb b 128
    then 0
    else if ltb b 194
    then 4
    else if ltb b 224
    then 1
    else if ltb b 240
    then 2
    else if ltb b 245
    then 3
    else 4

-- The bounds of the byte after it.
second_min : ℕ → ℕ
second_min b = if b == 224 then 160 else if b == 240 then 144 else 128

second_max : ℕ → ℕ
second_max b = if b == 237 then 159 else if b == 244 then 143 else 191

-- Whether a next byte between `lo` and `hi`, and further continuation bytes after it, complete the
-- character that is under way, where `more` bytes of it are to come.
unfoldable pub is_utf8_from : ℕ → ℕ → ℕ → Bytes → Bool
unfolding follow_len second_min second_max
is_utf8_from zero lo hi [] = true
is_utf8_from (suc more) lo hi [] = false
is_utf8_from (suc more) lo hi (b ∷ s) = leb lo b && leb b hi && is_utf8_from more 128 191 s
is_utf8_from zero lo hi (b ∷ s) =
    ltb (follow_len b) 4 && is_utf8_from (follow_len b) (second_min b) (second_max b) s

unfoldable pub is_utf8 : Bytes → Bool
is_utf8 s = is_utf8_from 0 128 191 s

-- `char::is_whitespace`: the length of the white space character at the front, or 0.
unfoldable pub space_len : Bytes → ℕ
space_len [] = 0
space_len (a ∷ []) = if a == 32 || leb 9 a && leb a 13 then 1 else 0
space_len (a ∷ b ∷ []) =
    if a == 32 || leb 9 a && leb a 13
    then 1
    else if a == 194 && (b == 133 || b == 160)
    then 2
    else 0
space_len (a ∷ b ∷ c ∷ s) =
    if a == 32 || leb 9 a && leb a 13
    then 1
    else if a == 194 && (b == 133 || b == 160)
    then 2
    else if a == 225 && b == 154 && c == 128
    then 3
    else if a == 226 && b == 128 && (leb 128 c && leb c 138 || c == 168 || c == 169 || c == 175)
    then 3
    else if a == 226 && b == 129 && c == 159
    then 3
    else if a == 227 && b == 128 && c == 128
    then 3
    else 0

unfoldable pub trim_start_loop : ℕ → Bytes → Bytes
trim_start_loop zero s = s
trim_start_loop (suc fuel) s = trim_start_loop fuel (drop (space_len s) s)

-- Each turn takes a white space character, or changes nothing.
unfoldable pub trim_start : Bytes → Bytes
unfolding trim_start_loop
trim_start s = trim_start_loop (length s) s

unfoldable pub trim_end : Bytes → Bytes
trim_end [] = []
trim_end (c ∷ s) = let rest = trim_end s in if is_empty (trim_start (c ∷ s)) then [] else c ∷ rest

unfoldable pub trim : Bytes → Bytes
trim s = trim_end (trim_start s)

-- `split_once` at an ASCII character.
abbrev pub split_once : ℕ → Bytes → Option (Bytes × Bytes)
split_once sep [] = none
split_once sep (c ∷ s) =
    if c == sep
    then some ([], s)
    else elim (split_once sep s) [ none ↦ none | some (k, v) ↦ some (c ∷ k, v) ]

-- A character in front of the first of the parts, of which there is one at least.
abbrev pub onto_first : ℕ → List Bytes → List Bytes
onto_first c [] = (c ∷ []) ∷ []
onto_first c (l ∷ ls) = (c ∷ l) ∷ ls

-- `split` at an ASCII character.
abbrev pub split : ℕ → Bytes → List Bytes
split sep [] = [] ∷ []
split sep (c ∷ s) = let rest = split sep s in if c == sep then [] ∷ rest else onto_first c rest

abbrev pub drop_in_first : List Bytes → List Bytes
drop_in_first [] = []
drop_in_first (l ∷ ls) = drop 1 l ∷ ls

-- `split("\r\n")`: where the separator begins, its line feed is at the front of what follows.
abbrev pub split_crlf : Bytes → List Bytes
split_crlf [] = [] ∷ []
split_crlf (c ∷ s) =
    let rest = split_crlf s in
    if starts_with (13 ∷ 10 ∷ []) (c ∷ s) then [] ∷ drop_in_first rest else onto_first c rest

-- A line without the carriage return at its end.
abbrev pub strip_cr : Bytes → Bytes
strip_cr [] = []
strip_cr (c ∷ []) = if c == 13 then [] else c ∷ []
strip_cr (c ∷ d ∷ s) = c ∷ strip_cr (d ∷ s)

terminated : List Bytes → List Bytes
terminated [] = []
terminated (l ∷ []) = if is_empty l then [] else l ∷ []
terminated (l ∷ next ∷ ls) = strip_cr l ∷ terminated (next ∷ ls)

unfoldable pub lines : Bytes → List Bytes
unfolding terminated
lines s = terminated (split 10 s)

-- The characters before the first white space.
abbrev pub first_word : Bytes → Bytes
first_word [] = []
first_word (c ∷ s) = let rest = first_word s in if space_len (c ∷ s) == 0 then c ∷ rest else []

words_loop : ℕ → Bytes → List Bytes
words_loop zero s = []
words_loop (suc fuel) s =
    let text = trim_start s in
    let word = first_word text in
    let rest = words_loop fuel (drop (length word) text) in
    if is_empty text then [] else word ∷ rest

-- `split_whitespace`: each turn takes a word.
unfoldable pub split_whitespace : Bytes → List Bytes
unfolding words_loop
split_whitespace s = words_loop (length s) s

unfoldable pub to_lower : ℕ → ℕ
to_lower c = if leb 65 c && leb c 90 then c + 32 else c

unfoldable pub eq_ignore_ascii_case : Bytes → Bytes → Bool
eq_ignore_ascii_case a b = bytes_eq (map to_lower a) (map to_lower b)

-- `char::to_digit`, or 36 where it is none.
unfoldable pub digit_of : ℕ → ℕ
unfolding to_lower
digit_of c =
    if leb 48 c && leb c 57
    then c - 48
    else if leb 97 (to_lower c) && leb (to_lower c) 122
    then to_lower c - 87
    else 36

-- The number so far, until a character is no digit or the value does not fit below the bound.
unfoldable pub digits_value : ℕ → ℕ → ℕ → Bytes → Option ℕ
unfolding digit_of
digits_value radix bound n [] = some n
digits_value radix bound n (c ∷ s) =
    let next = n * radix + digit_of c in
    if ltb (digit_of c) radix && ltb next bound then digits_value radix bound next s else none

-- `from_str_radix` of an unsigned type with values below the bound.
unfoldable pub parse_unsigned : ℕ → ℕ → Bytes → Option ℕ
parse_unsigned radix bound [] = none
parse_unsigned radix bound (c ∷ s) =
    if c == 43
    then (if is_empty s then none else digits_value radix bound 0 s)
    else digits_value radix bound 0 (c ∷ s)

abbrev pub u16_bound : ℕ
u16_bound = 65536

abbrev pub u32_bound : ℕ
u32_bound = 4294967296

abbrev pub u64_bound : ℕ
u64_bound = 18446744073709551616

-- `{:0wX}` of a number below 16 ^ w.
unfoldable pub hex_upper : ℕ → ℕ → Bytes
hex_upper zero n = []
hex_upper (suc width) n =
    let d = n % 16 in hex_upper width (n / 16) ++ ((if ltb d 10 then d + 48 else d + 55) ∷ [])

-- `{:0wx}` likewise.
unfoldable pub hex_lower : ℕ → ℕ → Bytes
hex_lower zero n = []
hex_lower (suc width) n =
    let d = n % 16 in hex_lower width (n / 16) ++ ((if ltb d 10 then d + 48 else d + 87) ∷ [])
