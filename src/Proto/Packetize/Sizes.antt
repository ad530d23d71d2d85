-- ===== src/Proto/Packetize/Sizes.antt =====
-- Into how many datagrams a frame goes, and when there are too many.
use native.Mathlib.Nat.{mul-le-mul_right}
use castr.Base.{
  ℕ, ◌-◌, ◌+◌, sym, subst, All, length-append, ◌*◌, ◌≤◌, ◌<◌, ◌≡◌, refl, inl, inr, arith, Bool,
  none, some, List, [], ◌∷◌, length, ltb, Bool-cases,
}
use castr.Base.Bytes.{Bytes}
use castr.Base.Words.{add32}
use castr.Base.Chunks.{chunks, chunks-count, chunks-Fits, Fits}
use castr.Proto.Header.{encode, header_len}
use castr.Proto.Header.Codec.{length-encode}
use castr.Proto.Packetize.Laws.{length-fragments}
use castr.Proto.Packetize.{Packetizer, fragment_header, fragments, budget, packetize}

pub budget_pos : (max_datagram : ℕ) → 0 < budget max_datagram
unfolding budget
budget_pos max_datagram = omega arith

pub budget_minus : (max_datagram : ℕ) → 20 < max_datagram → budget max_datagram ≡ max_datagram - 20
unfolding budget
budget_minus max_datagram h = omega arith

-- How many pieces there are, against a frame's size.
pub chunks_few :
    (n : ℕ) (frame : Bytes) → 0 < n → length frame ≤ 65535 * n → length (chunks n frame) ≤ 65535
chunks_few n frame h k = elim (Bool-cases (ltb 65535 (length (chunks n frame)))) [
  | inr few ↦ ground arith
  | inl many ↦
      let m : 65536 * n ≤ length (chunks n frame) * n = mul-le-mul_right n (ground arith) in
      absurd (omega (arith, m, (chunks-count n frame h).1))
]

pub chunks_many :
    (n : ℕ) (frame : Bytes) → 0 < n → 65535 * n < length frame → 65535 < length (chunks n frame)
chunks_many n frame h k = elim (Bool-cases (ltb 65535 (length (chunks n frame)))) [
  | inl many ↦ ground arith
  | inr few ↦
      let m : length (chunks n frame) * n ≤ 65535 * n = mul-le-mul_right n (ground arith) in
      absurd (omega (arith, m, (chunks-count n frame h).0))
]

pub packetize_few :
    (p : Packetizer) (stream : ℕ) (keyframe : Bool) (timestamp_us x : ℕ) (xs : Bytes)
    (max_datagram : ℕ)
    → length (chunks (budget max_datagram) (x ∷ xs)) ≤ 65535
    → let cs = chunks (budget max_datagram) (x ∷ xs) in
      packetize p stream keyframe timestamp_us (x ∷ xs) max_datagram
      ≡ some (
        record { next_frame = add32 p.next_frame 1 },
        fragments stream keyframe timestamp_us p.next_frame (length cs) 0 cs,
      )
unfolding packetize
packetize_few p stream keyframe timestamp_us x xs max_datagram h = ground arith

pub packetize_many :
    (p : Packetizer) (stream : ℕ) (keyframe : Bool) (timestamp_us x : ℕ) (xs : Bytes)
    (max_datagram : ℕ)
    → 65535 < length (chunks (budget max_datagram) (x ∷ xs))
    → packetize p stream keyframe timestamp_us (x ∷ xs) max_datagram ≡ none
unfolding packetize
packetize_many p stream keyframe timestamp_us x xs max_datagram h = ground arith

pub packetize_empty :
    (p : Packetizer) (stream : ℕ) (keyframe : Bool) (timestamp_us max_datagram : ℕ)
    → packetize p stream keyframe timestamp_us [] max_datagram ≡ some (p, [])
unfolding packetize
packetize_empty p stream keyframe timestamp_us max_datagram = refl

module _ (stream : ℕ) (keyframe : Bool) (timestamp_us f count : ℕ) where
  fragments-Fits :
      (n i : ℕ) (cs : List Bytes)
      → All (Fits n) cs
      → All (λ d. length d ≤ n + header_len) (fragments stream keyframe timestamp_us f count i cs)
  unfolding fragments
  fragments-Fits n i [] a = tt
  fragments-Fits n i (c ∷ cs) a = (
    (let h = fragment_header stream keyframe timestamp_us f count i in
        omega (arith, length-append (encode h) c, length-encode h)),
    fragments-Fits n (i + 1) cs a.1,
  )

-- Datagrams that fit, as many as it takes for so many bytes.
abbrev pub Carry : ℕ → ℕ → List Bytes → Type 0
Carry size max_datagram ds =
    All (λ d. length d ≤ max_datagram) ds
    × (length ds ≤ 65535)
    × (size ≤ length ds * (max_datagram - 20))
    × (length ds * (max_datagram - 20) < size + (max_datagram - 20))

pub Carry-fragments :
    (stream : ℕ) (keyframe : Bool) (timestamp_us f : ℕ) (frame : Bytes) (max_datagram : ℕ)
    → 20 < max_datagram
    → length (chunks (max_datagram - 20) frame) ≤ 65535
    → let cs = chunks (budget max_datagram) frame in
      Carry (length frame) max_datagram (fragments stream keyframe timestamp_us f (length cs) 0 cs)
Carry-fragments stream keyframe timestamp_us f frame max_datagram h few =
    rw (budget_minus max_datagram h) (
      subst (λ m. All (λ (d : Bytes). length d ≤ m) frags) room
          (fragments-Fits stream keyframe timestamp_us f (length cs) (max_datagram - 20) 0 cs
            (chunks-Fits (max_datagram - 20) frame (omega arith))),
      omega (arith, n, few),
      subst (λ (k : ℕ). length frame ≤ k * (max_datagram - 20)) (sym n) count.0,
      subst (λ (k : ℕ). k * (max_datagram - 20) < length frame + (max_datagram - 20)) (sym n)
          count.1,
    )
  where
    cs : List Bytes
    cs = chunks (max_datagram - 20) frame

    frags : List Bytes
    frags = fragments stream keyframe timestamp_us f (length cs) 0 cs

    n : length frags ≡ length cs
    n = length-fragments stream keyframe timestamp_us f (length cs) 0 cs

    room : max_datagram - 20 + header_len ≡ max_datagram
    room = omega arith

    count :
        (length frame ≤ length cs * (max_datagram - 20))
        × (length cs * (max_datagram - 20) < length frame + (max_datagram - 20))
    count = chunks-count (max_datagram - 20) frame (omega arith)
