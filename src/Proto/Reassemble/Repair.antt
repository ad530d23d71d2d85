-- ===== src/Proto/Reassemble/Repair.antt =====
-- What `tick` asks for, what it gives up, and what it leaves.
use mathlib.Core.List.{append-nil, append_assoc}
use castr.Base.{
  ℕ, zero, suc, ◌+◌, ◌≤◌, ◌<◌, ◌-◌, ◌≡◌, ◌⊎◌, ◌↔◌, inl, inr, refl, sym, ap, ◌∙◌, arith, Bool, true,
  false, ◌||◌, Option, none, some, List, [], ◌∷◌, ◌++◌, length, get_elem?, any, Bool-cases,
  Option-cases, if◌then◌else◌, ◌==◌,
}
use castr.Base.Maps.{lookup, remove, Above, IsAscending, lookup-remove, lookup-Above}
use castr.Base.Bytes.{Bytes}
use castr.Base.Words.{add64}
use castr.Proto.Reassemble.{
  Nack, Partial, Reassembler, Sweep, missing_from, is_expired, is_in_time, sweep, sweep_entry,
  remove_all, tick,
}
use castr.Proto.Reassemble.Laws.{IsValid}

-- The parts asked for in the first request for frame `f`.
abbrev pub asked : ℕ → List Nack → Option (List ℕ)
asked f [] = none
asked f (n ∷ ns) = if n.frame_number == f then some n.missing else asked f ns

-- A part is asked for exactly if it has a place in the frame and has not come.
missing_from_shift :
    (i k : ℕ) (ps : List (Option Bytes))
    → k < i
    → i + length ps ≤ 65536
    → any (λ j. j == k) (missing_from i ps) ≡ false
unfolding missing_from
missing_from_shift i k [] h l = refl
missing_from_shift i k (none ∷ ps) h l =
    ground (arith, missing_from_shift (i + 1) k ps (omega arith) (omega arith))
missing_from_shift i k (some p ∷ ps) h l =
    missing_from_shift (i + 1) k ps (omega arith) (omega arith)

-- The indices that are asked for are exactly those of the parts that have not come, as long as
-- these fit into 16 bits.
pub missing_from_lem :
    (i k j : ℕ) (ps : List (Option Bytes))
    → i + k ≡ j
    → i + length ps ≤ 65536
    → (any (λ n. n == j) (missing_from i ps) ≡ true) ↔ (get_elem? ps k ≡ some none)
unfolding missing_from
missing_from_lem i k j [] e l = ((λ q. cc), (λ q. cc))
missing_from_lem i zero j (none ∷ ps) e l = ((λ q. refl), (λ q. ground arith))
missing_from_lem i zero j (some p ∷ ps) e l =
    ((λ q. absurd (cc (missing_from_shift (i + 1) j ps (omega arith) (omega arith)))), (λ q. cc))
missing_from_lem i (suc k) j (none ∷ ps) e l =
    let ih = missing_from_lem (i + 1) k j ps (omega arith) (omega arith) in ground arith
missing_from_lem i (suc k) j (some p ∷ ps) e l =
    missing_from_lem (i + 1) k j ps (omega arith) (omega arith)

has : ℕ → List ℕ → Bool
has f fs = any (λ k. k == f) fs

lookup-remove_all :
    (f : ℕ) (fs : List ℕ) (m : List (ℕ × Partial))
    → lookup f (remove_all fs m) ≡ (if has f fs then none else lookup f m)
unfolding remove_all has
lookup-remove_all f [] m = refl
lookup-remove_all f (k ∷ fs) m =
    ground (arith, lookup-remove_all f fs (remove k m), lookup-remove k f m)

Above-ascends : (k : ℕ) (m : List (ℕ × Partial)) → Above k m → IsAscending m
Above-ascends k [] a = tt
Above-ascends k ((j, p) ∷ m) a = a.1

module _ (max_age_us now_us rtt_us repair_window_us : ℕ) where
  -- What an entry is asked for, if anything.
  abbrev pub request : Partial → Option (List ℕ)
  request p =
      if is_expired max_age_us now_us p
      then none
      else if p.keyframe || is_in_time now_us rtt_us repair_window_us p
      then some (missing_from 0 p.parts)
      else none

  nack_of : ℕ → Partial → List Nack
  nack_of f p = elim (request p) [
    | none ↦ []
    | some missing ↦ record { frame_number = f; missing = missing } ∷ []
  ]

  nacks_of : List (ℕ × Partial) → List Nack
  nacks_of [] = []
  nacks_of ((f, p) ∷ m) = nack_of f p ++ nacks_of m

  expiry_of : ℕ → Partial → List ℕ
  expiry_of f p = if is_expired max_age_us now_us p then f ∷ [] else []

  expired_of : List (ℕ × Partial) → List ℕ
  expired_of [] = []
  expired_of ((f, p) ∷ m) = expiry_of f p ++ expired_of m

  sweep_entry_gathers :
      (f : ℕ) (p : Partial) (s : Sweep)
      → let s' = sweep_entry max_age_us now_us rtt_us repair_window_us f p s in
        (s'.nacks ≡ s.nacks ++ nack_of f p) × (s'.expired ≡ s.expired ++ expiry_of f p)
  unfolding sweep_entry nack_of expiry_of
  sweep_entry_gathers f p s = ground (arith, append-nil s.nacks, append-nil s.expired)

  sweep_gathers :
      (m : List (ℕ × Partial)) (s : Sweep)
      → ((sweep max_age_us now_us rtt_us repair_window_us m s).nacks ≡ s.nacks ++ nacks_of m)
        × ((sweep max_age_us now_us rtt_us repair_window_us m s).expired
            ≡ s.expired ++ expired_of m)
  unfolding sweep nacks_of expired_of
  sweep_gathers [] s = (sym (append-nil s.nacks), sym (append-nil s.expired))
  sweep_gathers ((f, p) ∷ m) s =
      let s' = sweep_entry max_age_us now_us rtt_us repair_window_us f p s in
      let (a, b) = sweep_gathers m s' in
      let (c, d) = sweep_entry_gathers f p s in
      (
        a ∙ ap (λ l. l ++ nacks_of m) c ∙ append_assoc s.nacks (nack_of f p) (nacks_of m),
        b ∙ ap (λ l. l ++ expired_of m) d ∙ append_assoc s.expired (expiry_of f p) (expired_of m),
      )

  asked-nacks_of :
      (f : ℕ) (m : List (ℕ × Partial))
      → IsAscending m
      → asked f (nacks_of m) ≡ elim (lookup f m) [ none ↦ none | some p ↦ request p ]
  unfolding nacks_of nack_of lookup
  asked-nacks_of f [] a = refl
  asked-nacks_of f ((k, p) ∷ m) a =
      ground (arith, asked-nacks_of f m (Above-ascends k m a), lookup-Above k f m a)

  has-Above : (k f : ℕ) (m : List (ℕ × Partial)) → Above k m → f ≤ k → has f (expired_of m) ≡ false
  unfolding has expired_of expiry_of
  has-Above k f [] a h = refl
  has-Above k f ((j, p) ∷ m) a h = elim (Bool-cases (is_expired max_age_us now_us p)) [
    | inl e ↦ rw e (ground (arith, has-Above j f m a.1))
    | inr e ↦ rw e (has-Above j f m a.1 (omega arith))
  ]

  has-expired_of :
      (f : ℕ) (m : List (ℕ × Partial))
      → IsAscending m
      → (if has f (expired_of m) then none else lookup f m) ≡ elim (lookup f m) [
        | none ↦ none
        | some p ↦ if is_expired max_age_us now_us p then none else some p
      ]
  unfolding has expired_of expiry_of lookup
  has-expired_of f [] a = refl
  has-expired_of f ((k, p) ∷ m) a = elim (Bool-cases (is_expired max_age_us now_us p)) [
    | inl e ↦ rw e (
        ground (
          arith,
          has-expired_of f m (Above-ascends k m a),
          lookup-Above k f m a,
          has-Above k f m a,
        ))
    | inr e ↦ rw e (
        ground (
          arith,
          has-expired_of f m (Above-ascends k m a),
          lookup-Above k f m a,
          has-Above k f m a,
        ))
  ]

tick-request :
    (r : Reassembler) (now_us rtt_us repair_window_us f : ℕ)
    → IsValid r
    → (asked f (tick r now_us rtt_us repair_window_us).1 ≡ elim (lookup f r.partial) [
      | none ↦ none
      | some p ↦ request r.max_age_us now_us rtt_us repair_window_us p
    ])
      × (lookup f (tick r now_us rtt_us repair_window_us).0.partial ≡ elim (lookup f r.partial) [
        | none ↦ none
        | some p ↦ if is_expired r.max_age_us now_us p then none else some p
      ])
unfolding tick
tick-request r now_us rtt_us repair_window_us f v =
    let s : Sweep = record { nacks = []; expired = []; lost = r.lost } in
    let (a, b) = sweep_gathers r.max_age_us now_us rtt_us repair_window_us r.partial s in
    (
      rw a (asked-nacks_of r.max_age_us now_us rtt_us repair_window_us f r.partial v.ordered),
      rw b (
          lookup-remove_all f (expired_of r.max_age_us now_us rtt_us repair_window_us r.partial)
            r.partial
          ∙ has-expired_of r.max_age_us now_us rtt_us repair_window_us f r.partial v.ordered),
    )

-- A repair asked for now comes before the frame is due, with ten milliseconds left to decode it.
abbrev pub ComesInTime : ℕ → ℕ → ℕ → Partial → Type 0
ComesInTime now_us rtt_us repair_window_us p =
    add64 (add64 now_us rtt_us) 10000 < add64 p.first_seen_us repair_window_us

-- What one pass does to a frame in assembly: what it asks for, and what is left of the frame.
abbrev pub Ticked : ℕ → ℕ → ℕ → ℕ → Partial → Option (List ℕ) → Option Partial → Type 0
Ticked max_age_us now_us rtt_us repair_window_us p wanted left =
    ((max_age_us < now_us - p.first_seen_us) × (wanted ≡ none) × (left ≡ none))
    ⊎ ((now_us - p.first_seen_us ≤ max_age_us)
        × ((p.keyframe ≡ true) ⊎ ComesInTime now_us rtt_us repair_window_us p)
        × (wanted ≡ some (missing_from 0 p.parts))
        × (left ≡ some p))
    ⊎ ((now_us - p.first_seen_us ≤ max_age_us)
        × (p.keyframe ≡ false)
        × (¬ ComesInTime now_us rtt_us repair_window_us p)
        × (wanted ≡ none)
        × (left ≡ some p))

request-Ticked :
    (max_age_us now_us rtt_us repair_window_us : ℕ) (p : Partial)
    → Ticked max_age_us now_us rtt_us repair_window_us p
        (request max_age_us now_us rtt_us repair_window_us p)
        (if is_expired max_age_us now_us p then none else some p)
unfolding is_expired is_in_time
request-Ticked max_age_us now_us rtt_us repair_window_us p = ground arith

-- One pass of `tick` over a valid state, frame by frame. A frame that is not in assembly is neither
-- asked for nor made. A frame first seen longer ago than the maximal age is dropped without a
-- request. A younger one stays as it was, and is asked for, with all that it misses, exactly if it
-- is a keyframe or the current time, the round trip and ten milliseconds end before its repair
-- window does.
pub tick_lem :
    (r : Reassembler) (now_us rtt_us repair_window_us f : ℕ)
    → IsValid r
    → let (r', nacks) = tick r now_us rtt_us repair_window_us in
      ((lookup f r.partial ≡ none) × (asked f nacks ≡ none) × (lookup f r'.partial ≡ none))
      ⊎ ((p : Partial) × (lookup f r.partial ≡ some p)
          × Ticked r.max_age_us now_us rtt_us repair_window_us p
              (asked f nacks)
              (lookup f r'.partial))
tick_lem r now_us rtt_us repair_window_us f v =
    let (a, b) = tick-request r now_us rtt_us repair_window_us f v in
    elim (Option-cases (lookup f r.partial)) [
      | inl e ↦ inl (e, a ∙ rw (e) refl, b ∙ rw (e) refl)
      | inr (p, e) ↦
          inr (p, e, rw (a, b, e) (request-Ticked r.max_age_us now_us rtt_us repair_window_us p))
    ]
