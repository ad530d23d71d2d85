-- ===== src/Proto/Header/Codec.antt =====
-- `encode` and `decode` are inverse to one another, and what `decode` accepts.
use castr.Base.{ℕ, ◌+◌, ◌*◌, ◌/◌, ◌%◌, ◌^◌, ◌<◌, ◌≡◌, refl, arith, ◌∷◌, ◌++◌, length, ok, All, set}
use castr.Base.Bytes.{Bytes, IsByte, u16_from_le, u32_from_le, u64_from_le}
use castr.Base.Words.{IsU16, IsU32, IsU64}
use castr.Proto.Header.{DatagramHeader, encode, decode, fields, header_len, IsValid}

pub length-encode : (h : DatagramHeader) → length (encode h) ≡ header_len
unfolding encode
length-encode h = refl

u16_le_lem : (a : ℕ) → IsU16 a → u16_from_le (a % 256) (a / 256 % 256) ≡ a
u16_le_lem a h = omega arith

u32_le_lem :
    (a : ℕ)
    → IsU32 a
    → u32_from_le (a % 256) (a / 256 % 256) (a / 65536 % 256) (a / 16777216 % 256) ≡ a
u32_le_lem a h = omega arith

u64_le_lem :
    (a : ℕ)
    → IsU64 a
    → u64_from_le
        (a % 256)
        (a / 256 % 256)
        (a / 65536 % 256)
        (a / 16777216 % 256)
        (a / 2 ^ 32 % 256)
        (a / 2 ^ 40 % 256)
        (a / 2 ^ 48 % 256)
        (a / 2 ^ 56 % 256)
      ≡ a
u64_le_lem a h = omega arith

fields-encode :
    (h : DatagramHeader) (payload : Bytes) → IsValid h → fields (encode h ++ payload) ≡ h
unfolding encode fields
fields-encode h payload v = ground (
  arith,
  u16_le_lem h.fragment_index,
  u16_le_lem h.fragment_count,
  u32_le_lem h.frame_number,
  u64_le_lem h.timestamp_us,
)

-- A valid header, encoded in front of any payload, is decoded to the same header and payload.
pub decode-encode :
    (h : DatagramHeader) (payload : Bytes)
    → IsValid h
    → decode (encode h ++ payload) ≡ ok (h, payload)
unfolding decode encode
decode-encode h payload v = ground (arith, fields-encode h payload v)

split_u16 :
    (a b : ℕ) → a < 256 → b < 256 → (u16_from_le a b % 256 ≡ a) × (u16_from_le a b / 256 % 256 ≡ b)
split_u16 a b ha hb = omega arith

split_u32 :
    (a b c d : ℕ)
    → a < 256
    → b < 256
    → c < 256
    → d < 256
    → (u32_from_le a b c d % 256 ≡ a)
      × (u32_from_le a b c d / 256 % 256 ≡ b)
      × (u32_from_le a b c d / 65536 % 256 ≡ c)
      × (u32_from_le a b c d / 16777216 % 256 ≡ d)
split_u32 a b c d ha hb hc hd = omega arith

split_low :
    (n k a : ℕ)
    → n < 2 ^ 32
    → n + 2 ^ 32 * k ≡ a
    → (a % 256 ≡ n % 256)
      × (a / 256 % 256 ≡ n / 256 % 256)
      × (a / 65536 % 256 ≡ n / 65536 % 256)
      × (a / 16777216 % 256 ≡ n / 16777216 % 256)
split_low n k a h e = omega arith

split_high :
    (n k a : ℕ)
    → n < 2 ^ 32
    → n + 2 ^ 32 * k ≡ a
    → (a / 2 ^ 32 % 256 ≡ k % 256)
      × (a / 2 ^ 40 % 256 ≡ k / 256 % 256)
      × (a / 2 ^ 48 % 256 ≡ k / 65536 % 256)
      × (a / 2 ^ 56 % 256 ≡ k / 16777216 % 256)
split_high n k a h e = omega arith

u32_from_le_lt :
    (a b c d : ℕ) → a < 256 → b < 256 → c < 256 → d < 256 → u32_from_le a b c d < 2 ^ 32
u32_from_le_lt a b c d ha hb hc hd = omega arith

-- A datagram that `decode` accepts has a valid header, and re-encoding it in front of the payload
-- gives the datagram back, with the two reserved bytes cleared.
pub encode-decode :
    (buf : Bytes) (h : DatagramHeader) (payload : Bytes)
    → All IsByte buf
    → decode buf ≡ ok (h, payload)
    → IsValid h × (encode h ++ payload ≡ set (set buf 6 0) 7 0)
unfolding decode encode fields
encode-decode
      (b0 ∷ b1 ∷ b2 ∷ b3 ∷ b4 ∷ b5 ∷ b6 ∷ b7 ∷ b8 ∷ b9 ∷ b10 ∷ b11 ∷ b12 ∷ b13 ∷ b14 ∷ b15 ∷ b16
        ∷ b17 ∷ b18 ∷ b19 ∷ p)
      h payload bytes e =
    let lo = u32_from_le b12 b13 b14 b15 in
    let hi = u32_from_le b16 b17 b18 b19 in
    ground (
      arith,
      split_u16 b2 b3,
      split_u16 b4 b5,
      split_u32 b8 b9 b10 b11,
      split_u32 b12 b13 b14 b15,
      split_u32 b16 b17 b18 b19,
      u32_from_le_lt b12 b13 b14 b15,
      split_low lo hi h.timestamp_us,
      split_high lo hi h.timestamp_us,
    )
encode-decode _ h payload bytes e = absurd (cc)
