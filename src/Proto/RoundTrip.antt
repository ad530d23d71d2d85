-- ===== src/Proto/RoundTrip.antt =====
-- `packetize` on one side and `push` on the other: a frame through the network.
use castr.Base.{
  ℕ, zero, suc, ◌+◌, ◌-◌, ◌*◌, ltb, ◌⊎◌, inl, inr, Bool-cases, ◌≤◌, ◌<◌, ◌≡◌, refl, ap, sym, subst,
  ◌∙◌, arith, Bool, false, none, some, List, [], ◌∷◌, ◌++◌, length, get_or, flatten,
}
use castr.Base.Maps.{lookup}
use castr.Base.Words.{IsU32, IsU64, add32}
use castr.Base.Bytes.{Bytes}
use castr.Proto.Header.{encode}
use castr.Proto.Packetize.{Packetizer, fragment_header, fragments, budget, packetize}
use castr.Proto.Packetize.Laws.{length-fragments}
use castr.Proto.Packetize.Sizes.{
  budget_pos, budget_minus, chunks_few, chunks_many, packetize_few, packetize_many, packetize_empty,
  Carry, Carry-fragments,
}
use castr.Base.Chunks.{chunks, flatten-chunks}
use castr.Proto.Reassemble.{Reassembler, is_stale, deliver}
use castr.Proto.Reassemble.Delivery.{Occurs, Below, arrivals, deliver-frame}

module _ (stream : ℕ) (keyframe : Bool) (timestamp_us f count : ℕ) where
  pub get_or-fragments :
      (i j k : ℕ) (cs : List Bytes)
      → i + j ≡ k
      → j < length cs
      → get_or (fragments stream keyframe timestamp_us f count i cs) j []
        ≡ encode (fragment_header stream keyframe timestamp_us f count k) ++ get_or cs j []
  unfolding fragments
  get_or-fragments i j k [] e h = elim h [ ]
  get_or-fragments i zero k (c ∷ cs) e h =
      let q : i ≡ k = omega arith in
      ap (λ n. encode (fragment_header stream keyframe timestamp_us f count n) ++ c) q
  get_or-fragments i (suc j) k (c ∷ cs) e h =
      get_or-fragments (i + 1) j k cs (omega arith) (omega arith)

-- The datagrams numbered in `js`, each at its time.
abbrev pub schedule : List Bytes → List (ℕ × ℕ) → List (Bytes × ℕ)
schedule ds [] = []
schedule ds ((j, now_us) ∷ js) = (get_or ds j [], now_us) ∷ schedule ds js

-- What `packetize` answers for a frame that is not empty and does not panic.
pub packetize-some :
    (p : Packetizer) (stream : ℕ) (keyframe : Bool) (timestamp_us x : ℕ) (xs : Bytes)
    (max_datagram : ℕ) (p' : Packetizer) (ds : List Bytes)
    → packetize p stream keyframe timestamp_us (x ∷ xs) max_datagram ≡ some (p', ds)
    → let cs = chunks (budget max_datagram) (x ∷ xs) in
      (length cs ≤ 65535)
      × (p'.next_frame ≡ add32 p.next_frame 1)
      × (ds ≡ fragments stream keyframe timestamp_us p.next_frame (length cs) 0 cs)
unfolding packetize
packetize-some p stream keyframe timestamp_us x xs max_datagram p' ds e = ground arith

pub chunks_pos : (n x : ℕ) (xs : Bytes) → 0 < n → 0 < length (chunks n (x ∷ xs))
chunks_pos n x xs h = go (chunks n (x ∷ xs)) (flatten-chunks n (x ∷ xs) h)
  where
    go : (cs : List Bytes) → flatten cs ≡ x ∷ xs → 0 < length cs
    go [] e = absurd (cc)
    go (c ∷ cs) e = omega arith

-- Where datagrams may be so long that there is room for a byte behind the header of 20: a frame of
-- more bytes than 65535 datagrams have room for makes `packetize` panic, and every other is
-- packetized, with the next frame's number one higher if the frame is not empty. No datagram is
-- then longer than was asked for, there are no more than 65535 of them, and they are as few as have
-- room for the frame: none for an empty frame, and one at least for any other.
pub packetize-fits :
    (p : Packetizer) (stream : ℕ) (keyframe : Bool) (timestamp_us : ℕ) (frame : Bytes)
    (max_datagram : ℕ)
    → 20 < max_datagram
    → let out = packetize p stream keyframe timestamp_us frame max_datagram in
      ((65535 * (max_datagram - 20) < length frame) × (out ≡ none))
      ⊎ ((length frame ≤ 65535 * (max_datagram - 20))
          × ((p' : Packetizer) × (ds : List Bytes) × (out ≡ some (p', ds))
              × (p'.next_frame ≡ elim frame [ [] ↦ p.next_frame | y ∷ ys ↦ add32 p.next_frame 1 ])
              × Carry (length frame) max_datagram ds))
packetize-fits p stream keyframe timestamp_us [] max_datagram h = inr (
  omega arith,
  (
    p,
    [],
    packetize_empty p stream keyframe timestamp_us max_datagram,
    refl,
    (tt, omega arith, omega arith, omega arith),
  ),
)
packetize-fits p stream keyframe timestamp_us (x ∷ xs) max_datagram h =
    elim (Bool-cases (ltb (65535 * (max_datagram - 20)) (length (x ∷ xs)))) [
      | inl large ↦ inl (
        ground arith,
        packetize_many p stream keyframe timestamp_us x xs max_datagram (
            subst (λ (n : ℕ). 65535 < length (chunks n (x ∷ xs))) (sym b)
              (chunks_many (max_datagram - 20) (x ∷ xs) (omega arith) (ground arith))),
      )
      | inr small ↦
          let few = chunks_few (max_datagram - 20) (x ∷ xs) (omega arith) (ground arith) in
          inr (
            ground arith,
            (
              record { next_frame = add32 p.next_frame 1 },
              frags,
              packetize_few p stream keyframe timestamp_us x xs max_datagram
                  (subst (λ (n : ℕ). length (chunks n (x ∷ xs)) ≤ 65535) (sym b) few),
              refl,
              Carry-fragments stream keyframe timestamp_us p.next_frame (x ∷ xs) max_datagram h few,
            ),
          )
    ]
  where
    b : budget max_datagram ≡ max_datagram - 20
    b = budget_minus max_datagram h

    cs : List Bytes
    cs = chunks (budget max_datagram) (x ∷ xs)

    frags : List Bytes
    frags = fragments stream keyframe timestamp_us p.next_frame (length cs) 0 cs

module _ (stream : ℕ) (keyframe : Bool) (timestamp_us f : ℕ) (cs : List Bytes)
    (some_cs : 0 < length cs) (few_cs : length cs ≤ 65535) (s : stream < 2) (t : IsU64 timestamp_us)
    (u : IsU32 f) where
  pub schedule-arrivals :
      (js : List (ℕ × ℕ))
      → Below (length cs) js
      → schedule (fragments stream keyframe timestamp_us f (length cs) 0 cs) js
        ≡ arrivals stream keyframe timestamp_us f cs some_cs few_cs s t u js
  schedule-arrivals [] b = refl
  schedule-arrivals ((j, now_us) ∷ js) b =
      rw (get_or-fragments stream keyframe timestamp_us f (length cs) 0 j j cs (omega arith) b.0) (
        ap
          (λ rest.
            (
              encode (fragment_header stream keyframe timestamp_us f (length cs) j)
                  ++ get_or cs j [],
              now_us,
            )
            ∷ rest)
          (schedule-arrivals js b.1))

  deliver-fragments :
      (r : Reassembler) (js : List (ℕ × ℕ)) (whole : Bytes)
      → flatten cs ≡ whole
      → is_stale r f ≡ false
      → lookup f r.partial ≡ none
      → Below (length cs) js
      → ((j : ℕ) → j < length cs → Occurs j js)
      → (r' : Reassembler) × (deliver r
            (schedule (fragments stream keyframe timestamp_us f (length cs) 0 cs) js)
          ≡ some (
            r',
            record {
              stream = stream;
              frame_number = f;
              timestamp_us = timestamp_us;
              keyframe = keyframe;
              bytes = whole;
            }
                ∷ [],
          ))
  deliver-fragments r js whole w e n b o =
      rw (schedule-arrivals js b, ← w)
        (deliver-frame stream keyframe timestamp_us f cs some_cs few_cs s t u r js e n b o)

-- The datagrams of a packetized frame that is not empty, each delivered at least once, in any
-- order, with any duplicates and at any times, make a reassembler that has not seen the frame put
-- out that frame, its bytes, number, time and keyframe mark, once. The stream is one of the
-- protocol, and the time and the number are in the ranges of their types.
pub deliver-packetize :
    (p : Packetizer) (stream : ℕ) (keyframe : Bool) (timestamp_us x : ℕ) (xs : Bytes)
    (max_datagram : ℕ) (p' : Packetizer) (ds : List Bytes) (r : Reassembler) (js : List (ℕ × ℕ))
    → packetize p stream keyframe timestamp_us (x ∷ xs) max_datagram ≡ some (p', ds)
    → stream < 2
    → IsU64 timestamp_us
    → IsU32 p.next_frame
    → is_stale r p.next_frame ≡ false
    → lookup p.next_frame r.partial ≡ none
    → Below (length ds) js
    → ((j : ℕ) → j < length ds → Occurs j js)
    → (r' : Reassembler) × (deliver r (schedule ds js)
        ≡ some (
          r',
          record {
            stream = stream;
            frame_number = p.next_frame;
            timestamp_us = timestamp_us;
            keyframe = keyframe;
            bytes = x ∷ xs;
          }
              ∷ [],
        ))
deliver-packetize p stream keyframe timestamp_us x xs max_datagram p' ds r js e s t u fr n b o =
    let (few, _, q) = packetize-some p stream keyframe timestamp_us x xs max_datagram p' ds e in
    let cs = chunks (budget max_datagram) (x ∷ xs) in
    let l : length ds ≡ length cs =
      ap length q ∙ length-fragments stream keyframe timestamp_us p.next_frame (length cs) 0 cs in
    rw q (
      deliver-fragments stream keyframe timestamp_us p.next_frame cs
        (chunks_pos (budget max_datagram) x xs (budget_pos max_datagram)) few s t u r js (x ∷ xs)
        (flatten-chunks (budget max_datagram) (x ∷ xs) (budget_pos max_datagram)) fr n
        (subst (λ n. Below n js) l b) (λ j h. o j (subst (λ n. j < n) (sym l) h)))
