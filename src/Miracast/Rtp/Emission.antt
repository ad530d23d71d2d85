-- ===== src/Miracast/Rtp/Emission.antt =====
-- Where the window puts a packet, and which packets it gives out.
use castr.Base.{
  ℕ, zero, suc, ◌+◌, ◌≤◌, ◌<◌, ◌≡◌, ◌⊎◌, inl, refl, ap, subst, ◌↔◌, Option-cases, position, ◌∙◌,
  arith, Bool-cases, true, All, max, if◌then◌else◌, ◌==◌, ◌≢◌, inr, false, Option, none, some, List,
  [], ◌∷◌, ◌++◌, length, length-append, insert_at,
}
use castr.Base.Words.{add16, sub16, add64}
use castr.Miracast.Rtp.{Packet, enqueue, lost_before, release, seq_ge, is_blocked}

-- At or after a number, in the circle of 16 bits: less than half of it ahead.
abbrev pub IsAtOrAfter : ℕ → Packet → Type 0
IsAtOrAfter seq h = sub16 h.sequence seq < 32768

abbrev pub StartsAtOrAfter : ℕ → List Packet → Type 0
StartsAtOrAfter seq [] = Unit
StartsAtOrAfter seq (h ∷ t) = IsAtOrAfter seq h

-- A packet stands between those that are not at or after its number and the first that is.
abbrev pub Placed : Packet → List Packet → List Packet → Type 0
Placed p held all =
    (before : List Packet) × (after : List Packet) × (held ≡ before ++ after)
    × (all ≡ before ++ (p ∷ after))
    × All (λ h. ¬ IsAtOrAfter p.sequence h) before
    × StartsAtOrAfter p.sequence after

seq_ge-IsAtOrAfter : (h : Packet) (seq : ℕ) → (seq_ge h.sequence seq ≡ true) ↔ IsAtOrAfter seq h
unfolding seq_ge
seq_ge-IsAtOrAfter h seq = ground arith

enqueue_behind :
    (p h : Packet) (t : List Packet)
    → seq_ge h.sequence p.sequence ≡ false
    → enqueue p (h ∷ t) ≡ h ∷ enqueue p t
unfolding enqueue
enqueue_behind p h t e =
    elim (Option-cases (position (λ (h : Packet). seq_ge h.sequence p.sequence) t)) [
      | inl none_later ↦ rw (e, none_later) refl
      | inr (i, q) ↦ rw (e, q) refl
    ]

enqueue_before :
    (p h : Packet) (t : List Packet)
    → seq_ge h.sequence p.sequence ≡ true
    → enqueue p (h ∷ t) ≡ p ∷ (h ∷ t)
unfolding enqueue
enqueue_before p h t e = rw (e) refl

enqueue_alone : (p : Packet) → enqueue p [] ≡ p ∷ []
unfolding enqueue
enqueue_alone p = refl

pub enqueue-Placed : (p : Packet) (held : List Packet) → Placed p held (enqueue p held)
enqueue-Placed p [] = ([], [], refl, enqueue_alone p, tt, tt)
enqueue-Placed p (h ∷ t) = elim (Bool-cases (seq_ge h.sequence p.sequence)) [
  | inl later ↦
      ([], h ∷ t, refl, enqueue_before p h t later, tt, (seq_ge-IsAtOrAfter h p.sequence).0 later)
  | inr earlier ↦
      let (before, after, a, b, c, d) = enqueue-Placed p t in
      (
        h ∷ before,
        after,
        ap (λ l. h ∷ l) a,
        enqueue_behind p h t earlier ∙ ap (λ l. h ∷ l) b,
        ((λ k. cc ((seq_ge-IsAtOrAfter h p.sequence).1 k)), c),
        d,
      )
]

-- The head waits: there is none, or it is not the next one and no more than the window's size is
-- held.
abbrev pub Waits : ℕ → Option ℕ → List Packet → Type 0
Waits window next [] = Unit
Waits window none (h ∷ t) = ⊥
Waits window (some n) (h ∷ t) = (h.sequence ≢ n) × (length (h ∷ t) ≤ window)

-- The head leaves: it is the first of all, or the next one, or there are more than the window's
-- size.
abbrev pub Leaves : ℕ → Option ℕ → ℕ → ℕ → Type 0
Leaves window none seq len = Unit
Leaves window (some n) seq len = (seq ≡ n) ⊎ (window < len)

-- What is missing before the head.
abbrev pub gap : Option ℕ → ℕ → ℕ
gap none seq = 0
gap (some n) seq = if seq == n then 0 else max (sub16 seq n) 1

-- Packets leave one by one, and the rest waits; each gap is counted.
abbrev pub Gives : ℕ → Option ℕ → Option ℕ → ℕ → ℕ → List Packet → List Packet → Type 0
Gives window next next' lost lost' [] held =
    (next' ≡ next) × (lost' ≡ lost) × Waits window next held
Gives window next next' lost lost' (h ∷ out) held =
    Leaves window next h.sequence (length (h ∷ out) + length held)
    × Gives window (some (add16 h.sequence 1)) next' (add64 lost (gap next h.sequence)) lost' out
        held

length-insert_at :
    (xs : List Packet) (i : ℕ) (p : Packet) → length (insert_at xs i p) ≡ suc (length xs)
length-insert_at [] zero p = refl
length-insert_at [] (suc i) p = refl
length-insert_at (x ∷ xs) zero p = refl
length-insert_at (x ∷ xs) (suc i) p = ap suc (length-insert_at xs i p)

pub release_held :
    (window : ℕ) (next : Option ℕ) (lost : ℕ) (held : List Packet)
    → (length (release window next lost held).held ≤ window)
      × ((release window next lost held).out ++ (release window next lost held).held ≡ held)
unfolding release
release_held window next lost [] = (omega arith, refl)
release_held window none lost (head ∷ rest) =
    let (a, b) = release_held window (some (add16 head.sequence 1)) (add64 lost 0) rest in
    (a, ap (λ t. head ∷ t) b)
release_held window (some n) lost (head ∷ rest) = ground (
  arith,
  release_held window (some (add16 head.sequence 1))
      (add64 lost (lost_before (some n) head.sequence)) rest,
)

pub length-enqueue : (p : Packet) (held : List Packet) → length (enqueue p held) ≡ suc (length held)
unfolding enqueue
length-enqueue p held = length-insert_at held _ p

pub length-release :
    (window : ℕ) (next : Option ℕ) (lost : ℕ) (held : List Packet)
    → let s = release window next lost held in length s.out + length s.held ≡ length held
length-release window next lost held =
    let s = release window next lost held in
    omega (
      arith,
      ap (λ (ps : List Packet). length ps) (release_held window next lost held).1,
      length-append s.out s.held,
    )

-- The loop at a head that does not stop it, and at one that does.
release_free :
    (window : ℕ) (next : Option ℕ) (lost : ℕ) (head : Packet) (rest : List Packet)
    → is_blocked window next head.sequence (suc (length rest)) ≡ false
    → let more =
        release window
          (some (add16 head.sequence 1))
          (add64 lost (lost_before next head.sequence))
          rest in
      release window next lost (head ∷ rest)
      ≡ record { held = more.held; next = more.next; lost = more.lost; out = head ∷ more.out }
unfolding release
release_free window next lost head rest e = rw (e) refl

release_blocked :
    (window : ℕ) (next : Option ℕ) (lost : ℕ) (head : Packet) (rest : List Packet)
    → is_blocked window next head.sequence (suc (length rest)) ≡ true
    → release window next lost (head ∷ rest)
      ≡ record { held = head ∷ rest; next = next; lost = lost; out = [] }
unfolding release
release_blocked window next lost head rest e = rw (e) refl

is_blocked-Leaves :
    (window : ℕ) (next : Option ℕ) (seq len : ℕ)
    → is_blocked window next seq len ≡ false
    → Leaves window next seq len
unfolding is_blocked
is_blocked-Leaves window none seq len e = tt
is_blocked-Leaves window (some n) seq len e = ground arith

is_blocked-Waits :
    (window : ℕ) (next : Option ℕ) (head : Packet) (rest : List Packet)
    → is_blocked window next head.sequence (suc (length rest)) ≡ true
    → Waits window next (head ∷ rest)
unfolding is_blocked
is_blocked-Waits window none head rest e = cc
is_blocked-Waits window (some n) head rest e = ground arith

lost_before-gap : (next : Option ℕ) (seq : ℕ) → lost_before next seq ≡ gap next seq
unfolding lost_before
lost_before-gap none seq = refl
lost_before-gap (some n) seq = refl

pub release-Gives :
    (window : ℕ) (next : Option ℕ) (lost : ℕ) (held : List Packet)
    → let s = release window next lost held in Gives window next s.next lost s.lost s.out s.held
unfolding release
release-Gives window next lost [] = (refl, refl, tt)
release-Gives window next lost (head ∷ rest) =
    let lost' = add64 lost (lost_before next head.sequence) in
    let more = release window (some (add16 head.sequence 1)) lost' rest in
    let ih = release-Gives window (some (add16 head.sequence 1)) lost' rest in
    let l = length-release window (some (add16 head.sequence 1)) lost' rest in
    let k : suc (length rest) ≡ length (head ∷ more.out) + length more.held = omega (arith, l) in
    elim (Bool-cases (is_blocked window next head.sequence (suc (length rest)))) [
      | inl blocked ↦
          rw (release_blocked window next lost head rest blocked)
            (refl, refl, is_blocked-Waits window next head rest blocked)
      | inr free ↦ rw (release_free window next lost head rest free) (
        subst (λ (len : ℕ). Leaves window next head.sequence len) k
            (is_blocked-Leaves window next head.sequence (suc (length rest)) free),
        subst
            (λ (k : ℕ).
              Gives window (some (add16 head.sequence 1)) more.next (add64 lost k) more.lost
                more.out more.held)
            (lost_before-gap next head.sequence) ih,
      )
    ]
