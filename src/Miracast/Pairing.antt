-- ===== src/Miracast/Pairing.antt =====
-- crates/castr-miracast/src/pairing.rs: the PIN that a source has to be told before it joins.
pub mod Digits
pub mod Screen
use castr.Base.{
  ℕ, zero, suc, ◌+◌, ◌-◌, ◌*◌, ◌/◌, ◌%◌, Bool, true, false, Option, none, some, [], ◌∷◌, ◌++◌, leb,
  ◌==◌, ◌&&◌, if◌then◌else◌, length, take, drop,
}
use castr.Base.Bytes.{Bytes}
use castr.Base.Text.{decimal}
use castr.Base.Strings.{parse_unsigned, u32_bound}

abbrev pub pin_digits : ℕ
pin_digits = 8

abbrev pub wps_walk_time : ℕ
wps_walk_time = 120000000

abbrev pub wps_rearm : ℕ
wps_rearm = 45000000

pub record WpsWindow : Type 0 where
  pub last : Option ℕ

unfoldable pub due : WpsWindow → ℕ → Bool
due w now = elim w.last [ none ↦ true | some t ↦ leb wps_rearm (now - t) ]

unfoldable pub armed : WpsWindow → ℕ → WpsWindow
armed w now = record { last = some now }

unfoldable pub reset : WpsWindow → WpsWindow
reset w = record { last = none }

-- The loop of `checksum`: each turn takes two digits, so five turns are enough for 32 bits.
unfoldable pub checksum_loop : ℕ → ℕ → ℕ → ℕ
checksum_loop zero accum pin = accum
checksum_loop (suc fuel) accum pin =
    let rest = checksum_loop fuel (accum + 3 * (pin % 10) + pin / 10 % 10) (pin / 100) in
    if pin == 0 then accum else rest

unfoldable pub checksum : ℕ → ℕ
checksum pin = (10 - checksum_loop 5 0 pin % 10) % 10

-- `{:0w}` of a number below 10 ^ w.
unfoldable pub padded : ℕ → ℕ → Bytes
padded zero n = []
padded (suc width) n = padded width (n / 10) ++ ((n % 10 + 48) ∷ [])

unfoldable pub pin_from : ℕ → Bytes
pin_from entropy = let value = entropy % 10000000 in padded 7 value ++ decimal (checksum value)

unfoldable pub all_digits : Bytes → Bool
all_digits [] = true
all_digits (c ∷ s) = leb 48 c && leb c 57 && all_digits s

unfoldable pub matches : Option ℕ → Option ℕ → Bool
matches (some value) (some check) = checksum value == check
matches _ _ = false

unfoldable pub is_valid : Bytes → Bool
is_valid pin =
    length pin == pin_digits
    && all_digits pin
    && matches (parse_unsigned 10 u32_bound (take 7 pin)) (parse_unsigned 10 u32_bound (drop 7 pin))

pub data Show : Type 0 where
  pin : Bytes → Show
  clear : Show
  nothing : Show

pub record Pairing : Type 0 where
  pub current : Option Bytes

abbrev pub new : Pairing
new = record { current = none }

unfoldable pub mint : Option Bytes → ℕ → Pairing × Show
mint (some p) entropy = (record { current = some p }, nothing)
mint none entropy = (record { current = some (pin_from entropy) }, pin (pin_from entropy))

unfoldable pub group_up : Pairing → ℕ → Pairing × Show
unfolding mint
group_up p entropy = mint p.current entropy

unfoldable pub provision_with : Option Bytes → ℕ → Pairing × Show
unfolding mint
provision_with (some p) entropy = (record { current = some p }, nothing)
provision_with none entropy = mint none entropy

unfoldable pub provisioning : Pairing → ℕ → Pairing × Show
unfolding provision_with
provisioning p entropy = provision_with p.current entropy

unfoldable pub failed : Pairing → ℕ → Pairing × Show
failed p entropy = group_up (record p { current = none }) entropy

-- `take`, and what was there.
unfoldable pub taken : Option Bytes → Show
taken (some p) = clear
taken none = nothing

unfoldable pub joined : Pairing → Pairing × Show
unfolding taken
joined p = (record { current = none }, taken p.current)
