-- ===== src/Miracast/Rtp.antt =====
-- crates/castr-miracast/src/rtp.rs: RTP parsing and the reordering window.
pub mod Emission
pub mod Window
use castr.Base.{
  ℕ, ◌+◌, ◌*◌, ◌/◌, ◌%◌, max, Bool, false, not, ◌&&◌, ◌||◌, Option, none, some, List, [], ◌∷◌, ltb,
  ◌==◌, if◌then◌else◌, length, get_or, drop, position, insert_at, any, unwrap_or,
}
use castr.Base.Words.{add16, sub16, add64}
use castr.Base.Bytes.{Bytes, u16_from_be, u32_from_be}

pub record Packet : Type 0 where
  pub sequence : ℕ
  pub timestamp : ℕ
  pub payload_type : ℕ
  pub payload : Bytes

-- The packet whose payload begins at `off`.
unfoldable pub packet_at : Bytes → ℕ → Option Packet
packet_at buf off =
    let b : ℕ → ℕ = λ i. get_or buf i 0 in
    if ltb (length buf) off
    then none
    else some (record {
      sequence = u16_from_be (b 2) (b 3);
      timestamp = u32_from_be (b 4) (b 5) (b 6) (b 7);
      payload_type = b 1 % 128;
      payload = drop off buf;
    })

-- The first byte is a version in two bits, a bit that is not read, the extension bit and four bits
-- of CSRC count; masks and shifts are written as remainders and quotients.
unfoldable pub parse : Bytes → Option Packet
parse buf =
    let b : ℕ → ℕ = λ i. get_or buf i 0 in
    if ltb (length buf) 12 || not (b 0 / 64 == 2)
    then none
    else (let off = 12 + b 0 % 16 * 4 in
        if b 0 / 16 % 2 == 1
        then (if ltb (length buf) (off + 4)
            then none
            else packet_at buf (off + (4 + u16_from_be (b (off + 2)) (b (off + 3)) * 4)))
        else packet_at buf off)

unfoldable pub seq_ge : ℕ → ℕ → Bool
seq_ge a b = ltb (sub16 a b) 0x8000

pub record Reorder : Type 0 where
  pub window : ℕ
  pub held : List Packet
  pub next : Option ℕ
  pub lost : ℕ

unfoldable pub new : ℕ → Reorder
new window = record { window = window; held = []; next = none; lost = 0 }

-- Delivered already, or held.
unfoldable pub is_known : Reorder → ℕ → Bool
is_known r seq =
    let held = any (λ (h : Packet). h.sequence == seq) r.held in
    elim r.next [ none ↦ held | some next ↦ not (seq_ge seq next) || held ]

unfoldable pub enqueue : Packet → List Packet → List Packet
enqueue p held =
    insert_at held
      (unwrap_or (position (λ (h : Packet). seq_ge h.sequence p.sequence) held) (length held)) p

-- Whether the loop stops at the head, and what it counts as lost if it does not.
unfoldable pub is_blocked : ℕ → Option ℕ → ℕ → ℕ → Bool
is_blocked window none seq len = false
is_blocked window (some next) seq len = not (seq == next) && not (ltb window len)

unfoldable pub lost_before : Option ℕ → ℕ → ℕ
lost_before none seq = 0
lost_before (some next) seq = if seq == next then 0 else max (sub16 seq next) 1

pub record Release : Type 0 where
  pub held : List Packet
  pub next : Option ℕ
  pub lost : ℕ
  pub out : List Packet

-- The `while let` loop over the head of what is held.
unfoldable pub release : ℕ → Option ℕ → ℕ → List Packet → Release
unfolding is_blocked lost_before
release window next lost [] = record { held = []; next = next; lost = lost; out = [] }
release window next lost (head ∷ rest) =
    let more =
      release window (some (add16 head.sequence 1)) (add64 lost (lost_before next head.sequence))
        rest in
    if is_blocked window next head.sequence (length (head ∷ rest))
    then record { held = head ∷ rest; next = next; lost = lost; out = [] }
    else record { held = more.held; next = more.next; lost = more.lost; out = head ∷ more.out }

unfoldable pub push : Reorder → Packet → Reorder × List Packet
push r p =
    if is_known r p.sequence
    then (r, [])
    else (let s = release r.window r.next r.lost (enqueue p r.held) in
        (record { window = r.window; held = s.held; next = s.next; lost = s.lost }, s.out))

unfoldable pub last_next : Option ℕ → List Packet → Option ℕ
last_next next [] = next
last_next next (p ∷ ps) = last_next (some (add16 p.sequence 1)) ps

unfoldable pub flush : Reorder → Reorder × List Packet
flush r = (record r { held = []; next = last_next r.next r.held }, r.held)
