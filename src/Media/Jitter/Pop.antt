-- ===== src/Media/Jitter/Pop.antt =====
-- What `pop` hands to the decoder, and what it counts as dropped.
use castr.Base.{
  ℕ, zero, suc, ◌-◌, ◌+◌, ◌%◌, ◌^◌, ◌≤◌, ◌<◌, ◌≡◌, ◌⊎◌, inl, inr, refl, ap, arith, true, false,
  ◌&&◌, if◌then◌else◌, Option, none, some, List, [], ◌∷◌, length, drop, is_empty, is_some,
  Bool-cases, Option-cases, Returns, Returns-of_eq, Returns-if, ltb, unwrap_or,
}
use castr.Base.Words.{add32, ltb_i64}
use castr.Proto.Control.{Mode, game, quality}
use castr.Proto.Reassemble.{CompleteFrame}
use castr.Media.Jitter.{
  JitterBuffer, newest_keyframe, is_key_at, take_frame, taken, trim_loop, trim_waiting,
  give_up_on_gop, pop_keyframe, pop_gap, pop_game, pop_due, pop_quality, pop_mode, pop, is_gap,
  due_at, wait_max_depth, gap_wait_us, quality_max_late_us,
}

-- A keyframe is needed until the first one is out; a queue that is not empty has its playout clock.
pub record IsValid (j : JitterBuffer) : Type 0 where
  pub started : (j.need_keyframe ≡ true) ⊎ (is_some j.last_popped ≡ true)
  pub based : (is_empty j.frames ≡ true) ⊎ (is_some j.base_us ≡ true)
  pub small : j.dropped < 2 ^ 32

-- The decoder has what the frame refers to: it is a keyframe, or it comes right behind the last
-- frame, and no keyframe is needed.
abbrev pub Follows : JitterBuffer → CompleteFrame → Type 0
Follows j f =
    (f.keyframe ≡ true)
    ⊎ ((j.need_keyframe ≡ false)
        × (j.last_popped ≡ some (unwrap_or j.last_popped 0))
        × (f.frame_number ≡ add32 (unwrap_or j.last_popped 0) 1))

abbrev pub Output : JitterBuffer → JitterBuffer → Option CompleteFrame → Type 0
Output j j' none =
    (j'.last_popped ≡ j.last_popped)
    × (length j'.frames ≤ length j.frames)
    × (j'.dropped ≡ (j.dropped + (length j.frames - length j'.frames)) % 2 ^ 32)
Output j j' (some f) =
    Follows j f
    × (j'.last_popped ≡ some f.frame_number)
    × (j'.need_keyframe ≡ false)
    × (length j'.frames < length j.frames)
    × (j'.dropped ≡ (j.dropped + (length j.frames - length j'.frames - 1)) % 2 ^ 32)

pub record Popped (j : JitterBuffer) (x : JitterBuffer × Option CompleteFrame) : Type 0 where
  pub valid : IsValid x.0
  pub output : Output j x.0 x.1

newest_keyframe_lem :
    (fs : List CompleteFrame) (n k : ℕ) → newest_keyframe fs n ≡ some k → is_key_at fs k ≡ true
unfolding newest_keyframe
newest_keyframe_lem fs zero k e = ground arith
newest_keyframe_lem fs (suc n) k e = ground (arith, newest_keyframe_lem fs n k)

-- What a key place is.
drop-get_elem? :
    (fs : List CompleteFrame) (k : ℕ)
    → is_key_at fs k ≡ true
    → (f : CompleteFrame) × (rest : List CompleteFrame) × (drop k fs ≡ f ∷ rest)
      × (f.keyframe ≡ true)
      × (length rest + k + 1 ≡ length fs)
unfolding is_key_at
drop-get_elem? [] k e = absurd (cc)
drop-get_elem? (f ∷ fs) zero e = (f, fs, refl, e, omega arith)
drop-get_elem? (f ∷ fs) (suc k) e =
    let (g, rest, p, q, l) = drop-get_elem? fs k e in (g, rest, p, q, omega arith)

based_nonempty :
    (j j' : JitterBuffer)
    → IsValid j
    → 0 < length j.frames
    → j'.base_us ≡ j.base_us
    → is_some j'.base_us ≡ true
based_nonempty j j' v h e = elim v.based [ inl q ↦ absurd (empty j.frames h q) | inr q ↦ rw e q ]
  where
    empty : (fs : List CompleteFrame) → 0 < length fs → is_empty fs ≡ true → ⊥
    empty [] h q = omega arith
    empty (f ∷ fs) h q = cc

-- A keyframe is taken from the queue of `j`, whatever else the state was made to be.
take_key :
    (j j' : JitterBuffer) (k : ℕ)
    → IsValid j
    → j'.frames ≡ j.frames
    → j'.base_us ≡ j.base_us
    → j'.dropped ≡ j.dropped
    → j'.need_keyframe ≡ false
    → is_key_at j.frames k ≡ true
    → Returns (Popped j) (taken (take_frame j' k))
unfolding take_frame
take_key j j' k v ef eb ed en e =
    let (f, rest, p, q, l) = drop-get_elem? j.frames k e in
    let p' : drop k j'.frames ≡ f ∷ rest = rw ef p in
    let j'' : JitterBuffer = record j' {
      frames = rest;
      dropped = add32 j'.dropped k;
      last_popped = some f.frame_number;
      gap_since = none;
    } in
    Returns-of_eq (Popped j) _ (j'', some f) (ground (arith, p'))
      (record {
        valid = record {
          started = inr refl;
          based = inr (based_nonempty j j' v (omega arith) eb);
          small = omega arith;
        };
        output = (inl q, refl, en, omega arith, omega arith);
      })

trim_loop_lem :
    (fs : List CompleteFrame) (d : ℕ)
    → d < 2 ^ 32
    → (length (trim_loop fs d).0 ≤ length fs)
      × ((trim_loop fs d).1 ≡ (d + (length fs - length (trim_loop fs d).0)) % 2 ^ 32)
      × (length (trim_loop fs d).0 ≤ wait_max_depth)
unfolding trim_loop
trim_loop_lem [] d h = omega arith
trim_loop_lem (f ∷ fs) d h = ground (arith, trim_loop_lem fs (add32 d 1))

-- The frames that stay are the whole queue, or what trimming leaves of it.
waits :
    (j j' : JitterBuffer)
    → IsValid j
    → j'.base_us ≡ j.base_us
    → j'.last_popped ≡ j.last_popped
    → j'.need_keyframe ≡ j.need_keyframe
    → length j'.frames ≤ length j.frames
    → j'.dropped ≡ (j.dropped + (length j.frames - length j'.frames)) % 2 ^ 32
    → Popped j (j', none)
waits j j' v eb el en h d = record {
  valid = record { started = ground arith; based = kept j'.frames h; small = omega arith };
  output = (el, h, d);
}
  where
    kept :
        (fs : List CompleteFrame)
        → length fs ≤ length j.frames
        → (is_empty fs ≡ true) ⊎ (is_some j'.base_us ≡ true)
    kept [] h = inl refl
    kept (f ∷ fs) h = inr (based_nonempty j j' v (omega arith) eb)

trimmed :
    (j j' : JitterBuffer)
    → IsValid j
    → j'.frames ≡ j.frames
    → j'.base_us ≡ j.base_us
    → j'.dropped ≡ j.dropped
    → j'.last_popped ≡ j.last_popped
    → j'.need_keyframe ≡ j.need_keyframe
    → Popped j (trim_waiting j', none)
unfolding trim_waiting
trimmed j j' v ef eb ed el en =
    let t = trim_loop_lem j'.frames j'.dropped (omega arith) in
    let l = ap (λ (fs : List CompleteFrame). length fs) ef in
    waits j _ v eb el en (omega arith) (omega arith)

given_up :
    (j j' : JitterBuffer)
    → IsValid j
    → j'.frames ≡ j.frames
    → j'.dropped ≡ j.dropped
    → j'.last_popped ≡ j.last_popped
    → Popped j (give_up_on_gop j', none)
unfolding give_up_on_gop
given_up j j' v ef ed el =
    let l = ap (λ (fs : List CompleteFrame). length fs) ef in
    record {
      valid = record { started = inl refl; based = inl refl; small = omega arith };
      output = (el, omega arith, omega arith);
    }

-- The head goes out, where it is no gap.
take_head :
    (j : JitterBuffer) (head : CompleteFrame) (rest : List CompleteFrame)
    → IsValid j
    → j.frames ≡ head ∷ rest
    → j.need_keyframe ≡ false
    → is_gap j.last_popped head ≡ false
    → Returns (Popped j) (taken (take_frame j 0))
take_head j head rest v e n g =
    let l : length j.frames ≡ suc (length rest) = ap (λ (fs : List CompleteFrame). length fs) e in
    let j' : JitterBuffer = record j {
      frames = rest;
      dropped = add32 j.dropped 0;
      last_popped = some head.frame_number;
      gap_since = none;
    } in
    Returns-of_eq (Popped j) _ (j', some head) (unfold take_frame in ground arith)
      (record {
        valid = record {
          started = inr refl;
          based = inr (based_nonempty j j v (omega arith) refl);
          small = omega arith;
        };
        output = (follows v.started, refl, n, omega arith, omega arith);
      })
  where
    follows : (j.need_keyframe ≡ true) ⊎ (is_some j.last_popped ≡ true) → Follows j head
    follows (inl y) = cc
    follows (inr y) = elim (Bool-cases head.keyframe) [
      | inl k ↦ inl k
      | inr k ↦ inr (n, unfold is_gap in ground arith, unfold is_gap in ground arith)
    ]

pop_keyframe-Popped : (j : JitterBuffer) → IsValid j → Returns (Popped j) (pop_keyframe j)
unfolding pop_keyframe
pop_keyframe-Popped j v = elim (Option-cases (newest_keyframe j.frames (length j.frames - 1))) [
  | inl e ↦ rw (e, Returns) (trimmed j j v refl refl refl refl refl)
  | inr (k, e) ↦
      rw (e, Returns)
        (take_key j (record j { need_keyframe = false }) k v refl refl refl refl
          (newest_keyframe_lem j.frames _ k e))
]

pop_gap-Popped :
    (j : JitterBuffer) (now_us : ℕ)
    → IsValid j
    → j.need_keyframe ≡ false
    → Returns (Popped j) (pop_gap j now_us)
unfolding pop_gap
pop_gap-Popped j now_us v n = elim (Option-cases (newest_keyframe j.frames (length j.frames - 1))) [
  | inl e ↦
      rw (e, Returns)
        (elim (Bool-cases (ltb gap_wait_us (now_us - unwrap_or j.gap_since now_us))) [
          | inl l ↦ rw (l, Returns) (given_up j _ v refl refl refl)
          | inr l ↦ rw (l, Returns) (trimmed j _ v refl refl refl refl refl)
        ])
  | inr (k, e) ↦
      rw (e, Returns) (take_key j j k v refl refl refl n (newest_keyframe_lem j.frames _ k e))
]

module _ (j : JitterBuffer) (head : CompleteFrame) (rest : List CompleteFrame) (v : IsValid j)
    (e : j.frames ≡ head ∷ rest) (n : j.need_keyframe ≡ false)
    (g : is_gap j.last_popped head ≡ false) where
  pop_game-Popped : Returns (Popped j) (pop_game j)
  unfolding pop_game
  pop_game-Popped = elim (Option-cases (newest_keyframe j.frames (length j.frames - 1))) [
    | inl q ↦
        rw (q, Returns)
          (elim (Bool-cases (ltb 30 (length j.frames))) [
            | inl l ↦ rw (l, Returns) (given_up j j v refl refl refl)
            | inr l ↦ rw (l, Returns) (take_head j head rest v e n g)
          ])
    | inr (k, q) ↦
        rw (q, Returns) (take_key j j k v refl refl refl n (newest_keyframe_lem j.frames _ k q))
  ]

  pop_due-Popped :
      (now_us last_due lateness : ℕ) → Returns (Popped j) (pop_due j now_us last_due lateness)
  unfolding pop_due
  pop_due-Popped now_us last_due lateness =
      elim (Bool-cases (ltb 0 last_due && ltb_i64 j.interval_us lateness)) [
        | inl b ↦
            rw (b, Returns)
              (elim (Option-cases (newest_keyframe j.frames last_due)) [
                | inl q ↦
                    rw (q, Returns)
                      (elim (Bool-cases (ltb_i64 quality_max_late_us lateness)) [
                        | inl l ↦ rw (l, Returns) (given_up j j v refl refl refl)
                        | inr l ↦ rw (l, Returns) (take_head j head rest v e n g)
                      ])
                | inr (k, q) ↦
                    rw (q, Returns)
                      (take_key j j k v refl refl refl n
                        (newest_keyframe_lem j.frames last_due k q))
              ])
        | inr b ↦ rw (b, Returns) (take_head j head rest v e n g)
      ]

  pop_quality-Popped : (now_us : ℕ) → Returns (Popped j) (pop_quality j head rest now_us)
  unfolding pop_quality
  pop_quality-Popped now_us = elim (Option-cases j.base_us) [
    | inl q ↦ absurd (unbased q)
    | inr (base, q) ↦
        rw (q, Returns)
          (elim (Bool-cases (ltb_i64 now_us (due_at base head))) [
            | inl l ↦
                rw (l, Returns) (waits j j v refl refl refl (omega arith) (omega (arith, v.small)))
            | inr l ↦ rw (l, Returns) (pop_due-Popped now_us _ _)
          ])
  ]
    where
      unbased : j.base_us ≡ none → ⊥
      unbased q =
          cc (
            based_nonempty j j v (omega (arith, ap (λ (fs : List CompleteFrame). length fs) e))
              refl)

  pop_mode-Popped : (m : Mode) (now_us : ℕ) → Returns (Popped j) (pop_mode m j head rest now_us)
  unfolding pop_mode
  pop_mode-Popped game now_us = pop_game-Popped
  pop_mode-Popped quality now_us = pop_quality-Popped now_us

-- In a valid state `pop` does not panic. What it hands out is a keyframe or the frame right behind
-- the last one, with no keyframe wanting; the frame is then the last one out, and no keyframe is
-- needed. Every other frame that leaves the queue is counted as dropped.
pub pop-Popped : (j : JitterBuffer) (now_us : ℕ) → IsValid j → Returns (Popped j) (pop j now_us)
unfolding pop
pop-Popped j now_us v = go j.frames refl
  where
    go :
        (fs : List CompleteFrame)
        → j.frames ≡ fs
        → Returns (Popped j) (elim fs [
          | [] ↦ some (j, none)
          | head ∷ rest ↦
              if j.need_keyframe
              then pop_keyframe j
              else if is_gap j.last_popped head
              then pop_gap j now_us
              else pop_mode j.mode j head rest now_us
        ])
    go [] e = waits j j v refl refl refl (omega arith) (omega (arith, v.small))
    go (head ∷ rest) e =
        Returns-if (Popped j) j.need_keyframe _ _ (λ n. pop_keyframe-Popped j v)
          (λ n.
            Returns-if (Popped j) (is_gap j.last_popped head) _ _ (λ g. pop_gap-Popped j now_us v n)
              (λ g. pop_mode-Popped j head rest v e n g j.mode now_us))
