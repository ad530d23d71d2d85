-- ===== src/Miracast/Caps/Masks.antt =====
-- The entries that a format's masks list.
use castr.Base.{
  ℕ, zero, suc, ◌+◌, ◌/◌, ◌%◌, ◌^◌, ◌≡◌, ◌≢◌, ◌⊎◌, inl, inr, ◌≤◌, ◌<◌, ◌↔◌, refl, sym, ap, subst,
  ◌∙◌, arith, some, List, [], ◌∷◌, ◌++◌, Bool-cases, Option-cases, ◌==◌,
}
use castr.Miracast.Caps.{VideoMode, VideoCodecCaps, VideoTable, cea_table, vesa_table, hh_table}
use castr.Miracast.Caps.Tables.{mode_at, mask_modes, table_modes}

abbrev pub In : {A : Type 0} → A → List A → Type 0
In a [] = ⊥
In a (x ∷ xs) = (a ≡ x) ⊎ In a xs

In-append : {A : Type 0} (a : A) (xs ys : List A) → In a (xs ++ ys) → In a xs ⊎ In a ys
In-append a [] ys i = inr i
In-append a (x ∷ xs) ys (inl e) = inl (inl e)
In-append a (x ∷ xs) ys (inr i) = elim (In-append a xs ys i) [ inl j ↦ inl (inr j) | inr j ↦ inr j ]

-- An entry of a table: its bit, from one place to before another, and its mode.
abbrev Within : ℕ → ℕ → VideoTable → ℕ → VideoTable × ℕ × VideoMode → Type 0
Within first last table mask e =
    (e.0 ≡ table)
    × ((k : ℕ) × (first ≤ k)
        × (k < last)
        × (e.1 ≡ 2 ^ k)
        × (mask / 2 ^ k % 2 ≢ 0)
        × (mode_at table k ≡ some e.2))

abbrev pub mask_of : VideoCodecCaps → VideoTable → ℕ
mask_of c cea_table = c.cea
mask_of c vesa_table = c.vesa
mask_of c hh_table = c.hh

-- A format lists an entry: one of the 32 bits of its mask for the table is set, and stands for the
-- mode there.
abbrev pub Lists : VideoCodecCaps → VideoTable × ℕ × VideoMode → Type 0
Lists c e =
    (k : ℕ) × (k < 32)
    × (e.1 ≡ 2 ^ k)
    × (mask_of c e.0 / 2 ^ k % 2 ≢ 0)
    × (mode_at e.0 k ≡ some e.2)

mask_modes-Within :
    (table : VideoTable) (mask bit count : ℕ) (e : VideoTable × ℕ × VideoMode)
    → In e (mask_modes table mask bit count)
    → Within bit (bit + count) table mask e
unfolding mask_modes
mask_modes-Within table mask bit zero e i = absurd i
mask_modes-Within table mask bit (suc count) e i =
    let ih : In e (mask_modes table mask (bit + 1) count)
        → Within bit (bit + suc count) table mask e =
      λ j.
        let (t, (k, a, b, c, d, m)) = mask_modes-Within table mask (bit + 1) count e j in
        (t, (k, omega arith, omega arith, c, d, m)) in
    elim (Bool-cases (mask / 2 ^ bit % 2 == 0)) [
      | inl clear ↦ ih (rw (clear) at i)
      | inr set ↦ elim (Option-cases (mode_at table bit)) [
        | inl gap ↦ ih (rw (set, gap) at i)
        | inr (mode, known) ↦
            let j : In e ((table, 2 ^ bit, mode) ∷ mask_modes table mask (bit + 1) count) =
              rw (set, known) at i in
            elim j [
              | inl eq ↦ (
                ap (λ x. x.0) eq,
                (
                  bit,
                  omega arith,
                  omega arith,
                  ap (λ x. x.1) eq,
                  ground arith,
                  known ∙ sym (ap (λ x. some x.2) eq),
                ),
              )
              | inr later ↦ ih later
            ]
      ]
    ]

mask_modes_later :
    (table : VideoTable) (mask bit count : ℕ) (e : VideoTable × ℕ × VideoMode)
    → In e (mask_modes table mask (bit + 1) count)
    → In e (mask_modes table mask bit (suc count))
unfolding mask_modes
mask_modes_later table mask bit count e i = elim (Bool-cases (mask / 2 ^ bit % 2 == 0)) [
  | inl clear ↦ rw (clear) i
  | inr set ↦ elim (Option-cases (mode_at table bit)) [
    | inl gap ↦ rw (set, gap) i
    | inr (mode, known) ↦ rw (set, known) (inr i)
  ]
]

mask_modes_first :
    (table : VideoTable) (mask bit count : ℕ) (mode : VideoMode)
    → mask / 2 ^ bit % 2 ≢ 0
    → mode_at table bit ≡ some mode
    → In (table, 2 ^ bit, mode) (mask_modes table mask bit (suc count))
unfolding mask_modes
mask_modes_first table mask bit count mode set known = elim (Bool-cases (mask / 2 ^ bit % 2 == 0)) [
  | inl clear ↦ absurd (set (ground arith))
  | inr e ↦ rw (e, known) (inl refl)
]

Within-mask_modes :
    (table : VideoTable) (mask bit count k : ℕ) (mode : VideoMode)
    → bit ≤ k
    → k < bit + count
    → mask / 2 ^ k % 2 ≢ 0
    → mode_at table k ≡ some mode
    → In (table, 2 ^ k, mode) (mask_modes table mask bit count)
Within-mask_modes table mask bit zero k mode l h set known = absurd (omega arith)
Within-mask_modes table mask bit (suc count) k mode l h set known = elim (Bool-cases (bit == k)) [
  | inl same ↦
      let q : bit ≡ k = ground arith in
      subst (λ (b : ℕ). In (table, 2 ^ k, mode) (mask_modes table mask b (suc count))) (sym q)
        (mask_modes_first table mask k count mode set known)
  | inr other ↦
      mask_modes_later table mask bit count (table, 2 ^ k, mode)
        (Within-mask_modes table mask (bit + 1) count k mode (ground arith) (omega arith) set known)
]

append-In_left : {A : Type 0} (a : A) (xs ys : List A) → In a xs → In a (xs ++ ys)
append-In_left a [] ys i = absurd i
append-In_left a (x ∷ xs) ys (inl e) = inl e
append-In_left a (x ∷ xs) ys (inr i) = inr (append-In_left a xs ys i)

append-In_right : {A : Type 0} (a : A) (xs ys : List A) → In a ys → In a (xs ++ ys)
append-In_right a [] ys i = i
append-In_right a (x ∷ xs) ys i = inr (append-In_right a xs ys i)

table_modes-Lists :
    (c : VideoCodecCaps) (e : VideoTable × ℕ × VideoMode) → In e (table_modes c) → Lists c e
unfolding table_modes
table_modes-Lists c e i =
    elim (In-append e (mask_modes cea_table c.cea 0 32)
      (mask_modes vesa_table c.vesa 0 32 ++ mask_modes hh_table c.hh 0 32) i) [
        | inl j ↦ as_mask cea_table (mask_modes-Within cea_table c.cea 0 32 e j)
        | inr j ↦
            elim (In-append e (mask_modes vesa_table c.vesa 0 32) (mask_modes hh_table c.hh 0 32)
              j) [
                | inl k ↦ as_mask vesa_table (mask_modes-Within vesa_table c.vesa 0 32 e k)
                | inr k ↦ as_mask hh_table (mask_modes-Within hh_table c.hh 0 32 e k)
              ]
      ]
  where
    as_mask : (t : VideoTable) → Within 0 32 t (mask_of c t) e → Lists c e
    as_mask t (same, (k, _, b, p, set, m)) =
        let q : (mask_of c t / 2 ^ k % 2 ≢ 0) × (mode_at t k ≡ some e.2) = (set, m) in
        let (set', m') =
          subst (λ (t : VideoTable). (mask_of c t / 2 ^ k % 2 ≢ 0) × (mode_at t k ≡ some e.2))
            (sym same) q in
        (k, b, p, set', m')

Lists-table_modes :
    (c : VideoCodecCaps) (t : VideoTable) (bit : ℕ) (mode : VideoMode)
    → Lists c (t, bit, mode)
    → In (t, bit, mode) (table_modes c)
unfolding table_modes
Lists-table_modes c t bit mode (k, b, p, set, m) =
    subst (λ (n : ℕ). In (t, n, mode) (table_modes c)) (sym p) (go t set m)
  where
    go :
        (t : VideoTable)
        → mask_of c t / 2 ^ k % 2 ≢ 0
        → mode_at t k ≡ some mode
        → In
            (t, 2 ^ k, mode)
            (mask_modes cea_table c.cea 0 32
              ++ (mask_modes vesa_table c.vesa 0 32 ++ mask_modes hh_table c.hh 0 32))
    go cea_table set m =
        append-In_left _ _ _ (Within-mask_modes cea_table c.cea 0 32 k mode (omega arith) b set m)
    go vesa_table set m = append-In_right _ (mask_modes cea_table c.cea 0 32) _ (
        append-In_left _ _ _
          (Within-mask_modes vesa_table c.vesa 0 32 k mode (omega arith) b set m))
    go hh_table set m = append-In_right _ (mask_modes cea_table c.cea 0 32) _ (
        append-In_right _ (mask_modes vesa_table c.vesa 0 32) _
          (Within-mask_modes hh_table c.hh 0 32 k mode (omega arith) b set m))

-- The entries that are gone through are exactly those that the format lists.
pub table_modes_iff :
    (c : VideoCodecCaps) (e : VideoTable × ℕ × VideoMode) → In e (table_modes c) ↔ Lists c e
table_modes_iff c (t, bit, mode) =
    (table_modes-Lists c (t, bit, mode), Lists-table_modes c t bit mode)
