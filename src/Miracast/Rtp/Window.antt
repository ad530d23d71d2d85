-- ===== src/Miracast/Rtp/Window.antt =====
-- The window is bounded, gives out all that it takes, and passes an ordered stream straight
-- through.
use castr.Base.{
  ℕ, ◌+◌, ◌≤◌, ◌<◌, ◌≡◌, ◌⊎◌, inl, refl, sym, subst, ◌↔◌, Option-cases, arith, Bool-cases, true,
  ◌==◌, inr, false, Option, any, none, some, List, [], ◌∷◌, ◌++◌, length,
}
use castr.Base.Words.{add16, sub16}
use castr.Miracast.Rtp.{Packet, Reorder, new, is_known, enqueue, release, push, seq_ge}
use castr.Miracast.Rtp.Emission.{
  Placed, Gives, enqueue-Placed, length-enqueue, release_held, length-release, release-Gives,
}

-- A number that comes before the next one to give out.
abbrev pub IsPast : Option ℕ → ℕ → Type 0
IsPast none seq = ⊥
IsPast (some n) seq = 32768 ≤ sub16 seq n

abbrev pub IsHeld : ℕ → List Packet → Type 0
IsHeld seq [] = ⊥
IsHeld seq (h ∷ t) = (h.sequence ≡ seq) ⊎ IsHeld seq t

any-IsHeld :
    (seq : ℕ) (held : List Packet)
    → (any (λ (h : Packet). h.sequence == seq) held ≡ true) ↔ IsHeld seq held
any-IsHeld seq [] = ((λ e. cc), (λ h. absurd h))
any-IsHeld seq (h ∷ t) = ground (arith, any-IsHeld seq t)

is_known_iff :
    (r : Reorder) (seq : ℕ) → (is_known r seq ≡ true) ↔ (IsPast r.next seq ⊎ IsHeld seq r.held)
unfolding is_known seq_ge
is_known_iff r seq = elim (Option-cases r.next) [
  | inl e ↦ rw (e) (ground (arith, any-IsHeld seq r.held))
  | inr (n, e) ↦ rw (e) (ground (arith, any-IsHeld seq r.held))
]

push_new :
    (r : Reorder) (p : Packet)
    → is_known r p.sequence ≡ false
    → let (r', out) = push r p in
      (length r'.held ≤ r.window)
      × (length out + length r'.held ≡ length r.held + 1)
      × Placed p r.held (out ++ r'.held)
      × Gives r.window r.next r'.next r.lost r'.lost out r'.held
unfolding push
push_new r p e =
    let (a, b) = release_held r.window r.next r.lost (enqueue p r.held) in
    let l = length-release r.window r.next r.lost (enqueue p r.held) in
    let n = length-enqueue p r.held in
    rw (e) (
      a,
      omega (arith, l, n),
      subst (λ (ps : List Packet). Placed p r.held ps) (sym b) (enqueue-Placed p r.held),
      release-Gives r.window r.next r.lost (enqueue p r.held),
    )

push_known : (r : Reorder) (p : Packet) → is_known r p.sequence ≡ true → push r p ≡ (r, [])
unfolding push
push_known r p e = rw (e) refl

-- A packet from before the next one to give out, or with the number of one that is held, is
-- dropped. Any other is put between those held that are not at or after its number and the first
-- that is. What is given out and what is still held are together, in order, all of those. Packets
-- are given out one by one, each if it is the first of all, the next one, or one of more than the
-- window's size, and the gap before it is counted as lost. The first that is left is not the next
-- one, and no more than the window's size are left.
pub push_lem :
    (r : Reorder) (p : Packet)
    → let (r', out) = push r p in
      ((IsPast r.next p.sequence ⊎ IsHeld p.sequence r.held) × (push r p ≡ (r, [])))
      ⊎ ((¬ (IsPast r.next p.sequence ⊎ IsHeld p.sequence r.held))
          × (length r'.held ≤ r.window)
          × (length out + length r'.held ≡ length r.held + 1)
          × Placed p r.held (out ++ r'.held)
          × Gives r.window r.next r'.next r.lost r'.lost out r'.held)
push_lem r p =
    let k = is_known_iff r p.sequence in
    elim (Bool-cases (is_known r p.sequence)) [
      | inl e ↦ inl (k.0 e, push_known r p e)
      | inr e ↦ let (a, b, c, d) = push_new r p e in inr ((λ h. cc (k.1 h)), a, b, c, d)
    ]

-- The numbers from `s` on, one by one.
abbrev pub Consecutive : ℕ → List Packet → Type 0
Consecutive s [] = Unit
Consecutive s (p ∷ ps) = (p.sequence ≡ s) × Consecutive (add16 s 1) ps

unfoldable pub push_all : Reorder → List Packet → Reorder × List Packet
push_all r [] = (r, [])
push_all r (p ∷ ps) =
    let (r', out) = push r p in let (r'', rest) = push_all r' ps in (r'', out ++ rest)

-- A reorderer that has given out everything before `s`.
record Idle (s : ℕ) (r : Reorder) : Type 0 where
  empty : r.held ≡ []
  ready : (r.next ≡ none) ⊎ (r.next ≡ some s)
  whole : r.lost ≡ 0

push-Idle :
    (s : ℕ) (r : Reorder) (p : Packet)
    → s < 65536
    → Idle s r
    → p.sequence ≡ s
    → Idle (add16 s 1) (push r p).0 × ((push r p).1 ≡ p ∷ [])
unfolding push is_known enqueue release seq_ge
push-Idle s r p h i e = ground arith

push_all-Idle :
    (s : ℕ) (r : Reorder) (ps : List Packet)
    → s < 65536
    → Idle s r
    → Consecutive s ps
    → ((push_all r ps).1 ≡ ps) × ((push_all r ps).0.lost ≡ 0)
unfolding push_all
push_all-Idle s r [] h i c = (refl, i.whole)
push_all-Idle s r (p ∷ ps) h i c =
    let (i', e) = push-Idle s r p h i c.0 in
    let (a, b) = push_all-Idle (add16 s 1) (push r p).0 ps (omega arith) i' c.1 in (rw (e, a), b)

new-Idle : (window s : ℕ) → Idle s (new window)
unfolding new
new-Idle window s = record { empty = refl; ready = inl refl; whole = refl }

-- A stream that comes in order passes through at once, and nothing is counted as lost, however
-- often its numbers wrap.
pub push_all-Consecutive :
    (window s : ℕ) (ps : List Packet)
    → s < 65536
    → Consecutive s ps
    → ((push_all (new window) ps).1 ≡ ps) × ((push_all (new window) ps).0.lost ≡ 0)
push_all-Consecutive window s ps h c =
    let (e, i) = push_all-Idle s (new window) ps h (new-Idle window s) c in (e, i)
