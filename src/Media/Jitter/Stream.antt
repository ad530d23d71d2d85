-- ===== src/Media/Jitter/Stream.antt =====
-- What the decoder sees over any sequence of calls.
use castr.Base.{
  ℕ, ◌≡◌, ◌⊎◌, inl, inr, refl, subst, arith, true, Option, none, some, List, [], ◌∷◌, ◌++◌, Returns,
  unwrap_or,
}
use castr.Base.Words.{add32}
use castr.Proto.Control.{Mode}
use castr.Proto.Reassemble.{CompleteFrame}
use castr.Media.Jitter.{
  JitterBuffer, new, require_keyframe, flush, set_mode, take_dropped, push, pop,
}
use castr.Media.Jitter.Pop.{IsValid, Popped, pop-Popped}

pub data Call : Type 0 where
  arrive : CompleteFrame → ℕ → Call
  show : ℕ → Call
  lose_reference : Call
  clear : Call
  change_mode : Mode → Call
  report : Call

abbrev shown : Option CompleteFrame → List CompleteFrame
shown none = []
shown (some f) = f ∷ []

abbrev shown_by :
    Option (JitterBuffer × Option CompleteFrame) → Option (JitterBuffer × List CompleteFrame)
shown_by none = none
shown_by (some (j, o)) = some (j, shown o)

-- One call, and the frames that it hands out.
unfoldable pub step : JitterBuffer → Call → Option (JitterBuffer × List CompleteFrame)
step j (arrive f now_us) = some (push j f now_us, [])
step j (show now_us) = shown_by (pop j now_us)
step j lose_reference = some (require_keyframe j, [])
step j clear = some (flush j, [])
step j (change_mode m) = some (set_mode j m, [])
step j report = some ((take_dropped j).0, [])

unfoldable pub run : JitterBuffer → List Call → Option (JitterBuffer × List CompleteFrame)
run j [] = some (j, [])
run j (c ∷ cs) = elim (step j c) [
  | none ↦ none
  | some (j', out) ↦ elim (run j' cs) [ none ↦ none | some (j'', rest) ↦ some (j'', out ++ rest) ]
]

-- Frames that a decoder can play whose last frame was the given one: each is a keyframe, or its
-- number follows that of the frame before it.
abbrev pub Playable : Option ℕ → List CompleteFrame → Type 0
Playable o [] = Unit
Playable none (f ∷ fs) = (f.keyframe ≡ true) × Playable (some f.frame_number) fs
Playable (some n) (f ∷ fs) =
    ((f.keyframe ≡ true) ⊎ (f.frame_number ≡ add32 n 1)) × Playable (some f.frame_number) fs

pub push-IsValid :
    (j : JitterBuffer) (f : CompleteFrame) (now_us : ℕ) → IsValid j → IsValid (push j f now_us)
unfolding push
push-IsValid j f now_us v = ground arith

-- What one call does, to the state and to the decoder.
record Stepped (j : JitterBuffer) (x : JitterBuffer × List CompleteFrame) : Type 0 where
  valid : IsValid x.0
  plays :
      (fs : List CompleteFrame) → Playable x.0.last_popped fs → Playable j.last_popped (x.1 ++ fs)

quiet : (j j' : JitterBuffer) → IsValid j' → j'.last_popped ≡ j.last_popped → Stepped j (j', [])
quiet j j' v e = record { valid = v; plays = λ fs p. subst (λ o. Playable o fs) e p }

shown-Playable :
    (o : Option ℕ) (f : CompleteFrame) (fs : List CompleteFrame)
    → (f.keyframe ≡ true)
      ⊎ ((o ≡ some (unwrap_or o 0)) × (f.frame_number ≡ add32 (unwrap_or o 0) 1))
    → Playable (some f.frame_number) fs
    → Playable o (f ∷ fs)
shown-Playable none f fs (inl k) p = (k, p)
shown-Playable none f fs (inr h) p = absurd (cc (h.0))
shown-Playable (some n) f fs (inl k) p = (inl k, p)
shown-Playable (some n) f fs (inr h) p = (inr h.1, p)

show-Stepped :
    (j : JitterBuffer) (m : Option (JitterBuffer × Option CompleteFrame))
    → Returns (Popped j) m
    → Returns (Stepped j) (shown_by m)
show-Stepped j none r = r
show-Stepped j (some (j', none)) r = quiet j j' r.valid r.output.0
show-Stepped j (some (j', some f)) r = record {
  valid = r.valid;
  plays = λ fs p.
      shown-Playable j.last_popped f fs (elim r.output.0 [ inl k ↦ inl k | inr h ↦ inr (h.1, h.2) ])
        (subst (λ o. Playable o fs) r.output.1 p);
}

step-Stepped : (j : JitterBuffer) (c : Call) → IsValid j → Returns (Stepped j) (step j c)
unfolding step
step-Stepped j (arrive f now_us) v =
    quiet j _ (push-IsValid j f now_us v) (unfold push in ground arith)
step-Stepped j (show now_us) v = show-Stepped j (pop j now_us) (pop-Popped j now_us v)
step-Stepped j lose_reference v =
    quiet j _ (unfold require_keyframe in ground arith) (unfold require_keyframe in refl)
step-Stepped j clear v = quiet j _ (unfold flush in ground arith) (unfold flush in refl)
step-Stepped j (change_mode m) v =
    quiet j _ (unfold set_mode in ground arith) (unfold set_mode in refl)
step-Stepped j report v =
    quiet j _ (unfold take_dropped in ground arith) (unfold take_dropped in refl)

Run : JitterBuffer → JitterBuffer × List CompleteFrame → Type 0
Run j x = IsValid x.0 × Playable j.last_popped x.1

after :
    (j : JitterBuffer) (out : List CompleteFrame) (j' : JitterBuffer)
    (m : Option (JitterBuffer × List CompleteFrame))
    → Stepped j (j', out)
    → Returns (Run j') m
    → Returns (Run j) (elim m [ none ↦ none | some (j'', rest) ↦ some (j'', out ++ rest) ])
unfolding Run
after j out j' none s r = r
after j out j' (some (j'', rest)) s r = (r.0, s.plays rest r.1)

run-Playable :
    (j : JitterBuffer) (cs : List Call)
    → IsValid j
    → Returns (λ x. IsValid x.0 × Playable j.last_popped x.1) (run j cs)
unfolding run Run
run-Playable j [] v = (v, tt)
run-Playable j (c ∷ cs) v = go (step j c) (step-Stepped j c v) (λ j' w. run-Playable j' cs w)
  where
    go :
        (m : Option (JitterBuffer × List CompleteFrame))
        → Returns (Stepped j) m
        → ((j' : JitterBuffer) → IsValid j' → Returns (Run j') (run j' cs))
        → Returns (Run j) (elim m [
          | none ↦ none
          | some (j', out) ↦ elim (run j' cs) [
            | none ↦ none
            | some (j'', rest) ↦ some (j'', out ++ rest)
          ]
        ])
    go none s ih = s
    go (some (j', out)) s ih = after j out j' (run j' cs) s (ih j' s.valid)

-- Whatever arrives, in whatever order and at whatever times, and however the buffer is flushed,
-- switched and told of lost references in between, a fresh buffer never panics, and the frames that
-- it hands out are playable: the first is a keyframe, and each later one is a keyframe or follows
-- the one before.
pub run-new :
    (mode : Mode) (interval_us : ℕ) (cs : List Call)
    → Returns (λ x. Playable none x.1) (run (new mode interval_us) cs)
run-new mode interval_us cs =
    weaken (run (new mode interval_us) cs)
      (run-Playable (new mode interval_us) cs (unfold new in ground arith))
  where
    weaken :
        (m : Option (JitterBuffer × List CompleteFrame))
        → Returns (λ x. IsValid x.0 × Playable (new mode interval_us).last_popped x.1) m
        → Returns (λ x. Playable none x.1) m
    weaken none r = r
    weaken (some x) r = unfold new in r.1
