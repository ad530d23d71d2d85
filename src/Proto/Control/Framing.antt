-- ===== src/Proto/Control/Framing.antt =====
-- A framed value is read back, from any buffer that begins with it, and never from less of it.
use castr.Base.{
  ℕ, zero, suc, ◌+◌, ◌/◌, ◌%◌, ◌^◌, ◌≤◌, ◌<◌, ◌≡◌, refl, arith, none, some, ◌++◌, length, take,
  Result, ok, length-append, length-take, take-length_append,
}
use castr.Base.Bytes.{Bytes, u32_from_le}
use castr.Proto.Control.{encode_len_prefixed, decode_len_prefixed, max_control_frame}

u32_le_lem :
    (a : ℕ)
    → a < 2 ^ 32
    → u32_from_le (a % 256) (a / 256 % 256) (a / 65536 % 256) (a / 16777216 % 256) ≡ a
u32_le_lem a h = omega arith

module _ {T E : Type 0} (to_allocvec : T → Bytes) (from_bytes : Bytes → Result T E) where
  -- A value whose body is within the limit and that the decoder reads back from its own bytes is
  -- decoded from its frame, with the frame's length, whatever follows the frame.
  pub decode_len_prefixed-encode_len_prefixed :
      (v : T) (rest : Bytes)
      → length (to_allocvec v) ≤ max_control_frame
      → from_bytes (to_allocvec v) ≡ ok v
      → decode_len_prefixed to_allocvec from_bytes
          (encode_len_prefixed to_allocvec from_bytes v ++ rest)
        ≡ ok (some (v, 4 + length (to_allocvec v)))
  unfolding decode_len_prefixed encode_len_prefixed
  decode_len_prefixed-encode_len_prefixed v rest h e =
      let body = to_allocvec v in
      let q : length body % 2 ^ 32 ≡ length body = omega arith in
      ground (
        arith,
        q,
        e,
        u32_le_lem (length body),
        length-append {0} body rest,
        take-length_append {0} body rest,
      )

  -- A frame that has not come whole asks for more: every proper prefix of it is `ok none`.
  pub decode_len_prefixed_cut :
      (v : T) (n : ℕ)
      → length (to_allocvec v) ≤ max_control_frame
      → n < 4 + length (to_allocvec v)
      → decode_len_prefixed to_allocvec from_bytes
          (take n (encode_len_prefixed to_allocvec from_bytes v))
        ≡ ok none
  unfolding decode_len_prefixed encode_len_prefixed
  decode_len_prefixed_cut v zero h l = refl
  decode_len_prefixed_cut v (suc zero) h l = refl
  decode_len_prefixed_cut v (suc (suc zero)) h l = refl
  decode_len_prefixed_cut v (suc (suc (suc zero))) h l = refl
  decode_len_prefixed_cut v (suc (suc (suc (suc n)))) h l =
      let body = to_allocvec v in
      let q : length body % 2 ^ 32 ≡ length body = omega arith in
      ground (arith, q, u32_le_lem (length body), length-take {0} n body)
