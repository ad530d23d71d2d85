-- ===== src/Miracast/Wfd/Methods.antt =====
-- crates/castr-miracast/src/wfd.rs: how a device is willing to be paired with.
use castr.Base.{
  ℕ, zero, suc, ◌/◌, ◌%◌, Bool, true, false, Option, none, some, List, [], ◌∷◌, ◌++◌, ltb, leb,
  ◌==◌, ◌&&◌, ◌||◌, if◌then◌else◌, length, drop, is_empty,
}
use castr.Base.Bytes.{Bytes, u16_from_be}
use castr.Base.Text.{ascii}
use castr.Base.Strings.{hex_lower}

-- The bits, in 16.
pub record ConfigMethods : Type 0 where
  pub bits : ℕ

abbrev pub display : ℕ
display = 8

abbrev pub push_button_bit : ℕ
push_button_bit = 128

abbrev pub keypad : ℕ
keypad = 256

abbrev pub physical_push_button : ℕ
physical_push_button = 640

abbrev pub virtual_push_button : ℕ
virtual_push_button = 1152

abbrev pub virtual_display : ℕ
virtual_display = 8200

-- `own & bits == bits`, over as many bits as the first number says.
unfoldable pub has_bits : ℕ → ℕ → ℕ → Bool
has_bits zero own bits = true
has_bits (suc width) own bits =
    (bits % 2 == 0 || own % 2 == 1) && has_bits width (own / 2) (bits / 2)

unfoldable pub has : ConfigMethods → ℕ → Bool
has m bits = has_bits 16 m.bits bits

abbrev pub push_button : ConfigMethods → Bool
push_button m = has m push_button_bit

unfoldable pub shows_a_pin : ConfigMethods → Bool
shows_a_pin m = has m display || has m virtual_display

-- `join(", ")`
join : List Bytes → Bytes
join [] = []
join (name ∷ []) = name
join (name ∷ next ∷ names) = name ++ (44 ∷ 32 ∷ join (next ∷ names))

abbrev named : Bool → Bytes → List Bytes
named true name = name ∷ []
named false name = []

unfoldable pub describe : ConfigMethods → Bytes
unfolding join
describe m =
    let names =
      named (has m display) (ascii "display")
      ++ (named (has m push_button_bit) (ascii "push-button")
          ++ named (has m keypad) (ascii "keypad")) in
    if is_empty names
    then ascii "no pairing method (0x" ++ (hex_lower 4 m.bits ++ ascii ")")
    else join names

-- The attributes from one on: each turn takes four bytes at least. The answer of the first that is
-- the methods, with a body long enough, counts.
unfoldable pub methods_loop : ℕ → Bytes → Option ConfigMethods
methods_loop zero value = none
methods_loop (suc fuel) (i0 ∷ i1 ∷ l0 ∷ l1 ∷ body) =
    let len = u16_from_be l0 l1 in
    let rest = methods_loop fuel (drop len body) in
    if ltb (length body) len
    then none
    else if u16_from_be i0 i1 == 4104 && leb 2 len
    then elim body [ b0 ∷ b1 ∷ more ↦ some (record { bits = u16_from_be b0 b1 }) | _ ↦ none ]
    else rest
methods_loop (suc fuel) value = none

unfoldable pub parse_config_methods : Bytes → Option ConfigMethods
parse_config_methods value = methods_loop (length value) value
