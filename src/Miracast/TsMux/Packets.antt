-- ===== src/Miracast/TsMux/Packets.antt =====
-- One packet of the multiplexer, as the demultiplexer reads it.
use castr.Base.{
  ℕ, suc, ◌+◌, ◌/◌, ◌%◌, ◌<◌, ◌≡◌, refl, ap, subst, ◌∙◌, arith, Bool, true, false, Option, none,
  some, ◌∷◌, ◌++◌, length, length-append, drop, drop-length_append,
}
use castr.Base.Bytes.{Bytes}
use castr.Miracast.Ts.{Demux, push, payload_offset, push_payload, note_cc}
use castr.Miracast.TsMux.{packet_of, field_bytes}

-- How many bytes an adaptation field takes, with its length.
abbrev pub field_len : Option Bytes → ℕ
field_len none = 0
field_len (some v) = 1 + length v

drop_five : (n a b c d e : ℕ) (xs : Bytes) → drop (5 + n) (a ∷ b ∷ c ∷ d ∷ e ∷ xs) ≡ drop n xs
drop_five n a b c d e xs =
    let q : suc (suc (suc (suc (suc n)))) ≡ 5 + n = omega arith in
    subst (λ (k : ℕ). drop k (a ∷ b ∷ c ∷ d ∷ e ∷ xs) ≡ drop n xs) q refl

-- Behind an adaptation field.
drop_field :
    (a b c d : ℕ) (v payload : Bytes)
    → length v < 256
    → drop (5 + length v % 256) (a ∷ b ∷ c ∷ d ∷ (length v % 256) ∷ (v ++ payload)) ≡ payload
drop_field a b c d v payload h =
    let q : length v % 256 ≡ length v = omega arith in
    drop_five (length v % 256) a b c d (length v % 256) (v ++ payload)
    ∙ (ap (λ (k : ℕ). drop k (v ++ payload)) q ∙ drop-length_append v payload)

length-packet_of :
    (pid : ℕ) (first : Bool) (cc : ℕ) (af : Option Bytes) (payload : Bytes)
    → length (packet_of pid first cc af payload) ≡ 4 + field_len af + length payload
unfolding packet_of field_bytes
length-packet_of pid first cc none payload = omega arith
length-packet_of pid first cc (some v) payload = omega (arith, length-append v payload)

-- A packet of the right size, with a byte of payload at least, is read as what it was made of.
pub push-packet_of :
    (d : Demux) (pid : ℕ) (first : Bool) (cc : ℕ) (af : Option Bytes) (payload : Bytes)
    → pid < 8192
    → cc < 16
    → field_len af + length payload ≡ 184
    → 0 < length payload
    → push d (packet_of pid first cc af payload) ≡ push_payload (note_cc d pid cc) pid payload first
unfolding push packet_of field_bytes payload_offset
push-packet_of d pid true cc none payload p c h l = ground arith
push-packet_of d pid false cc none payload p c h l = ground arith
push-packet_of d pid true cc (some v) payload p c h l = ground (
  arith,
  length-append v payload,
  drop_field 0x47 (64 + pid / 256 % 256 % 32) (pid % 256) (48 + cc % 16) v payload,
)
push-packet_of d pid false cc (some v) payload p c h l = ground (
  arith,
  length-append v payload,
  drop_field 0x47 (0 + pid / 256 % 256 % 32) (pid % 256) (48 + cc % 16) v payload,
)
