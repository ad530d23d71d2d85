-- ===== src/Miracast/Caps/Preference.antt =====
-- The order in which the source would rather have its modes.
use castr.Base.{
  sym, subst, leb→le, ℕ, ◌*◌, ◌/◌, ◌%◌, ◌≤◌, ◌<◌, ◌≡◌, ◌⊎◌, ◌↔◌, max, inl, inr, arith, true, false,
  Option, none, some, List, [], ◌∷◌, All, All-map, leb, Bool-cases,
}
use castr.Base.Strings.{u64_bound}
use castr.Proto.Control.{Mode, game, quality}
use castr.Miracast.Caps.{VideoMode}
use castr.Miracast.Caps.Choice.{
  goes_before, insert_mode, sort_modes, needs_mbps, all_modes, within_ceiling, our_modes,
}
use castr.Miracast.Caps.Masks.{In}

-- No mode goes before one that stands ahead of it.
abbrev IsOrdered : Mode → List VideoMode → Type 0
IsOrdered mode [] = Unit
IsOrdered mode (m ∷ ms) = All (λ n. goes_before mode n m ≡ false) ms × IsOrdered mode ms

goes_before_trans :
    (mode : Mode) (a b c : VideoMode)
    → goes_before mode b a ≡ false
    → goes_before mode c b ≡ false
    → goes_before mode c a ≡ false
unfolding goes_before
goes_before_trans quality a b c h k = ground arith
goes_before_trans game a b c h k = ground arith

goes_before_asym :
    (mode : Mode) (a b : VideoMode) → goes_before mode a b ≡ true → goes_before mode b a ≡ false
unfolding goes_before
goes_before_asym quality a b h = ground arith
goes_before_asym game a b h = ground arith

All-insert_mode :
    (P : VideoMode → Type 0) (mode : Mode) (m : VideoMode) (ms : List VideoMode)
    → P m
    → All P ms
    → All P (insert_mode mode m ms)
unfolding insert_mode
All-insert_mode P mode m [] p a = (p, tt)
All-insert_mode P mode m (n ∷ ns) p a = elim (Bool-cases (goes_before mode n m)) [
  | inl first ↦ rw (first) (a.0, All-insert_mode P mode m ns p a.1)
  | inr later ↦ rw (later) (p, a)
]

insert_mode-IsOrdered :
    (mode : Mode) (m : VideoMode) (ms : List VideoMode)
    → IsOrdered mode ms
    → IsOrdered mode (insert_mode mode m ms)
unfolding insert_mode
insert_mode-IsOrdered mode m [] o = (tt, tt)
insert_mode-IsOrdered mode m (n ∷ ns) o = elim (Bool-cases (goes_before mode n m)) [
  | inl first ↦ rw (first) (
    All-insert_mode (λ k. goes_before mode k n ≡ false) mode m ns (goes_before_asym mode n m first)
        o.0,
    insert_mode-IsOrdered mode m ns o.1,
  )
  | inr later ↦ rw (later) (
    (
      later,
      All-map (λ k. goes_before mode k n ≡ false) (λ k. goes_before mode k m ≡ false)
          (λ k. goes_before_trans mode m n k later) ns o.0,
    ),
    o,
  )
]

sort_modes-IsOrdered : (mode : Mode) (ms : List VideoMode) → IsOrdered mode (sort_modes mode ms)
unfolding sort_modes
sort_modes-IsOrdered mode [] = tt
sort_modes-IsOrdered mode (m ∷ ms) =
    insert_mode-IsOrdered mode m (sort_modes mode ms) (sort_modes-IsOrdered mode ms)

In-insert_mode :
    (mode : Mode) (m k : VideoMode) (ms : List VideoMode)
    → In k (insert_mode mode m ms) ↔ In k (m ∷ ms)
unfolding insert_mode
In-insert_mode mode m k [] = ((λ i. i), (λ i. i))
In-insert_mode mode m k (n ∷ ns) =
    let ih = In-insert_mode mode m k ns in
    elim (Bool-cases (goes_before mode n m)) [
      | inl first ↦ rw (first) (ground (arith, ih.0, ih.1))
      | inr later ↦ rw (later) ((λ i. i), (λ i. i))
    ]

In-sort_modes :
    (mode : Mode) (k : VideoMode) (ms : List VideoMode) → In k (sort_modes mode ms) ↔ In k ms
unfolding sort_modes
In-sort_modes mode k [] = ((λ i. i), (λ i. i))
In-sort_modes mode k (m ∷ ms) =
    ground (arith, In-sort_modes mode k ms, In-insert_mode mode m k (sort_modes mode ms))

All-within_ceiling :
    (P : VideoMode → Type 0) (ceiling : ℕ) (ms : List VideoMode)
    → All P ms
    → All P (within_ceiling ceiling ms)
unfolding within_ceiling
All-within_ceiling P ceiling [] a = tt
All-within_ceiling P ceiling (m ∷ ms) a = elim (Bool-cases (leb (needs_mbps m) ceiling)) [
  | inl fits ↦ rw (fits) (a.0, All-within_ceiling P ceiling ms a.1)
  | inr costly ↦ rw (costly) (All-within_ceiling P ceiling ms a.1)
]

within_ceiling-IsOrdered :
    (mode : Mode) (ceiling : ℕ) (ms : List VideoMode)
    → IsOrdered mode ms
    → IsOrdered mode (within_ceiling ceiling ms)
unfolding within_ceiling
within_ceiling-IsOrdered mode ceiling [] o = tt
within_ceiling-IsOrdered mode ceiling (m ∷ ms) o = elim (Bool-cases (leb (needs_mbps m) ceiling)) [
  | inl fits ↦ rw (fits) (
    All-within_ceiling (λ n. goes_before mode n m ≡ false) ceiling ms o.0,
    within_ceiling-IsOrdered mode ceiling ms o.1,
  )
  | inr costly ↦ rw (costly) (within_ceiling-IsOrdered mode ceiling ms o.1)
]

In-within_ceiling :
    (k : VideoMode) (ceiling : ℕ) (ms : List VideoMode)
    → In k (within_ceiling ceiling ms) ↔ (In k ms × (needs_mbps k ≤ ceiling))
unfolding within_ceiling
In-within_ceiling k ceiling [] = ((λ i. absurd i), (λ i. i.0))
In-within_ceiling k ceiling (m ∷ ms) =
    let ih = In-within_ceiling k ceiling ms in
    elim (Bool-cases (leb (needs_mbps m) ceiling)) [
      | inl fits ↦ rw (fits) (
        (λ i. elim i [
          | inl e ↦ (
            inl e,
            subst (λ (x : VideoMode). needs_mbps x ≤ ceiling) (sym e)
                (leb→le (needs_mbps m) ceiling fits),
          )
          | inr j ↦ (inr (ih.0 j).0, (ih.0 j).1)
        ]),
        (λ i. elim i.0 [ inl e ↦ inl e | inr j ↦ inr (ih.1 (j, i.1)) ]),
      )
      | inr costly ↦ rw (costly) (
        (λ i. (inr (ih.0 i).0, (ih.0 i).1)),
        (λ i. elim i.0 [
          | inl e ↦
              absurd (exceeds (subst (λ (x : VideoMode). needs_mbps x ≤ ceiling) e i.1) costly)
          | inr j ↦ ih.1 (j, i.1)
        ]),
      )
    ]
  where
    exceeds : needs_mbps m ≤ ceiling → leb (needs_mbps m) ceiling ≡ false → ⊥
    exceeds h c = ground arith

-- A limit, if there is one, is kept by the bits a second that the source reckons for a mode: a
-- sixth of a bit for every pixel, in megabits, and one at least.
abbrev pub Fits : Option ℕ → VideoMode → Type 0
Fits none m = Unit
Fits (some ceiling) m = max (m.width * m.height * m.fps % u64_bound / 6000000) 1 % 65536 ≤ ceiling

-- A mode may stand behind another: where pictures matter by height and then rate, for games by
-- rate and then height.
abbrev pub MayFollow : Mode → VideoMode → VideoMode → Type 0
MayFollow quality m n = (n.height < m.height) ⊎ ((n.height ≡ m.height) × (n.fps ≤ m.fps))
MayFollow game m n = (n.fps < m.fps) ⊎ ((n.fps ≡ m.fps) × (n.height ≤ m.height))

abbrev pub IsPreferred : Mode → List VideoMode → Type 0
IsPreferred mode [] = Unit
IsPreferred mode (m ∷ ms) = All (MayFollow mode m) ms × IsPreferred mode ms

goes_before-MayFollow :
    (mode : Mode) (m n : VideoMode) → goes_before mode n m ≡ false → MayFollow mode m n
unfolding goes_before
goes_before-MayFollow quality m n h = ground arith
goes_before-MayFollow game m n h = ground arith

IsOrdered-IsPreferred :
    (mode : Mode) (ms : List VideoMode) → IsOrdered mode ms → IsPreferred mode ms
IsOrdered-IsPreferred mode [] o = tt
IsOrdered-IsPreferred mode (m ∷ ms) o = (
  All-map (λ n. goes_before mode n m ≡ false) (MayFollow mode m) (goes_before-MayFollow mode m) ms
      o.0,
  IsOrdered-IsPreferred mode ms o.1,
)

-- The source's preference is its modes that fit the limit, all of them and no others. Where
-- pictures matter, a mode behind another has less height, or the same and no higher rate; for games
-- it has a lower rate, or the same and no more height.
pub our_modes_lem :
    (mode : Mode) (limit : Option ℕ)
    → IsPreferred mode (our_modes mode limit)
      × ((m : VideoMode) → In m (our_modes mode limit) ↔ (In m all_modes × Fits limit m))
unfolding our_modes needs_mbps
our_modes_lem mode none = (
  IsOrdered-IsPreferred mode _ (sort_modes-IsOrdered mode all_modes),
  λ m. (
    (λ i. ((In-sort_modes mode m all_modes).0 i, tt)),
    (λ i. (In-sort_modes mode m all_modes).1 i.0),
  ),
)
our_modes_lem mode (some ceiling) =
    let ms = sort_modes mode all_modes in
    (
      IsOrdered-IsPreferred mode _
          (within_ceiling-IsOrdered mode ceiling ms (sort_modes-IsOrdered mode all_modes)),
      λ m.
          let w = In-within_ceiling m ceiling ms in
          let t = In-sort_modes mode m all_modes in
          ((λ i. (t.0 (w.0 i).0, (w.0 i).1)), (λ i. w.1 (t.1 i.0, i.1))),
    )
