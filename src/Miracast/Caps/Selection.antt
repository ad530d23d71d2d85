-- ===== src/Miracast/Caps/Selection.antt =====
-- The source's choice: the first of its modes that the display can show.
use castr.Base.{
  ℕ, ◌≡◌, ◌≢◌, inl, inr, refl, sym, ap, subst, ◌∙◌, arith, true, Option, none, some, List, [], ◌∷◌,
  ◌++◌, All, Result, ok, err, Bool-cases, Option-cases,
}
use mathlib.Core.Option.{some-injective}
use castr.Miracast.Caps.{VideoMode, mode_eq, VideoCodecCaps, SinkCaps, VideoTable, ModeSelection}
use castr.Miracast.Caps.Masks.{In, Lists, table_modes_iff}
use castr.Miracast.Caps.Levels.{
  Needs, Carries, Encodes, required_level-Needs, can_carry-Carries, can_carry-Encodes,
}
use castr.Miracast.Caps.Tables.{table_modes, codec_formats, sink_modes}
use castr.Miracast.Caps.Choice.{
  required_level, profile_of, find_mode, can_carry, selection_of, selection_in, select_codec,
  select_level, select_mode, NoCommonFormat, choose_selection,
}

mode_eq_iff : (a b : VideoMode) → mode_eq a b ≡ true → a ≡ b
mode_eq_iff a b h = ground arith

-- What the search for a mode among the entries finds.
abbrev Found :
    VideoMode → List (VideoTable × ℕ × VideoMode) → Option (VideoTable × ℕ × VideoMode) → Type 0
Found wanted es none = All (λ e. e.2 ≢ wanted) es
Found wanted es (some e) = In e es × (e.2 ≡ wanted)

find_mode-Found :
    (wanted : VideoMode) (es : List (VideoTable × ℕ × VideoMode))
    → Found wanted es (find_mode wanted es)
unfolding find_mode
find_mode-Found wanted [] = tt
find_mode-Found wanted (e ∷ es) = ground (arith, find_mode-Found wanted es, mode_eq_iff e.2 wanted)

-- A format of the display, of a profile that the source encodes and at a level that carries the
-- mode, lists the mode in one of its tables.
abbrev pub IsShown : List VideoCodecCaps → VideoMode → Type 0
IsShown cs m =
    (r : ℕ) × (c : VideoCodecCaps) × (e : VideoTable × ℕ × VideoMode) × Needs m r
    × In c cs
    × Carries r c
    × Lists c e
    × (e.2 ≡ m)

-- The selection is of that kind, and says which: the level is the lowest for the mode, the profile
-- is one that the format has, and the table has the bit and the mode.
abbrev pub IsSelected : List VideoCodecCaps → ModeSelection → Type 0
IsSelected cs s =
    (c : VideoCodecCaps) × In c cs
    × Needs s.mode s.level
    × Carries s.level c
    × Encodes s.profile c.profile
    × Lists c (s.table, s.bit, s.mode)

-- For one mode at its level.
abbrev AtLevel : VideoMode → ℕ → List VideoCodecCaps → Option ModeSelection → Type 0
AtLevel wanted r cs none =
    (c : VideoCodecCaps) (e : VideoTable × ℕ × VideoMode)
    → In c cs
    → can_carry r c ≡ true
    → In e (table_modes c)
    → e.2 ≢ wanted
AtLevel wanted r cs (some s) =
    (s.mode ≡ wanted)
    × (s.level ≡ r)
    × ((c : VideoCodecCaps) × In c cs
        × (can_carry r c ≡ true)
        × (s.profile ≡ profile_of c.profile)
        × In (s.table, s.bit, s.mode) (table_modes c))

All-In : {A : Type 0} (P : A → Type 0) (a : A) (xs : List A) → All P xs → In a xs → P a
All-In P a [] h i = absurd i
All-In P a (x ∷ xs) h (inl e) = subst P (sym e) h.0
All-In P a (x ∷ xs) h (inr i) = All-In P a xs h.1 i

-- For one format.
abbrev InCodec : VideoMode → ℕ → VideoCodecCaps → Option ModeSelection → Type 0
InCodec wanted r c none = can_carry r c ≡ true → All (λ e. e.2 ≢ wanted) (table_modes c)
InCodec wanted r c (some s) =
    (s.mode ≡ wanted)
    × (s.level ≡ r)
    × (can_carry r c ≡ true)
    × (s.profile ≡ profile_of c.profile)
    × In (s.table, s.bit, s.mode) (table_modes c)

selection_of-InCodec :
    (wanted : VideoMode) (r : ℕ) (c : VideoCodecCaps) (o : Option (VideoTable × ℕ × VideoMode))
    → Found wanted (table_modes c) o
    → can_carry r c ≡ true
    → InCodec wanted r c (selection_of r c o)
unfolding selection_of
selection_of-InCodec wanted r c none f able = λ e. f
selection_of-InCodec wanted r c (some (kind, bit, mode)) (i, e) able = (e, refl, able, refl, i)

selection_in-InCodec :
    (wanted : VideoMode) (r : ℕ) (c : VideoCodecCaps) → InCodec wanted r c (selection_in wanted r c)
unfolding selection_in
selection_in-InCodec wanted r c = elim (Bool-cases (can_carry r c)) [
  | inl able ↦ rw (able) (
      selection_of-InCodec wanted r c (find_mode wanted (table_modes c))
        (find_mode-Found wanted (table_modes c)) able)
  | inr unable ↦ rw (unable) (λ e. cc)
]

onto_codecs :
    (wanted : VideoMode) (r : ℕ) (c : VideoCodecCaps) (cs : List VideoCodecCaps)
    (here rest : Option ModeSelection)
    → InCodec wanted r c here
    → AtLevel wanted r cs rest
    → AtLevel wanted r (c ∷ cs) (elim here [ none ↦ rest | some s ↦ some s ])
onto_codecs wanted r c cs (some s) rest (m, l, able, p, i) ih = (m, l, (c, inl refl, able, p, i))
onto_codecs wanted r c cs none (some s) f (m, l, (d, i, a, p, j)) = (m, l, (d, inr i, a, p, j))
onto_codecs wanted r c cs none none f ih = λ d x i h j. elim i [
  | inl same ↦
      All-In (λ y. y.2 ≢ wanted) x (table_modes c) (f (subst (λ k. can_carry r k ≡ true) same h))
        (subst (λ k. In x (table_modes k)) same j)
  | inr later ↦ ih d x later h j
]

select_codec-AtLevel :
    (wanted : VideoMode) (r : ℕ) (cs : List VideoCodecCaps)
    → AtLevel wanted r cs (select_codec wanted r cs)
unfolding select_codec
select_codec-AtLevel wanted r [] = λ c e i. absurd i
select_codec-AtLevel wanted r (c ∷ cs) =
    onto_codecs wanted r c cs (selection_in wanted r c) (select_codec wanted r cs)
      (selection_in-InCodec wanted r c) (select_codec-AtLevel wanted r cs)

-- Of one mode: it is selected, or the display cannot show it.
abbrev OfMode : VideoMode → List VideoCodecCaps → Option ModeSelection → Type 0
OfMode wanted cs none = IsShown cs wanted → ⊥
OfMode wanted cs (some s) = (s.mode ≡ wanted) × IsSelected cs s

at_level :
    (wanted : VideoMode) (r : ℕ) (cs : List VideoCodecCaps) (o : Option ModeSelection)
    → required_level wanted ≡ some r
    → AtLevel wanted r cs o
    → OfMode wanted cs o
at_level wanted r cs none q h = λ (r', c, e, n, i, k, j, m).
    let q' = (required_level-Needs wanted r').1 n in
    let able = (can_carry-Carries wanted r' c n).1 k in
    h c e i (subst (λ (k : ℕ). can_carry k c ≡ true) (some-injective _ _ (sym q' ∙ q)) able)
      ((table_modes_iff c e).1 j) m
at_level wanted r cs (some s) q (m, l, (c, i, able, p, j)) =
    let n = (required_level-Needs s.mode s.level).0 (ap required_level m ∙ (q ∙ sym (ap some l))) in
    let a = subst (λ (k : ℕ). can_carry k c ≡ true) (sym l) able in
    (
      m,
      (
        c,
        i,
        n,
        (can_carry-Carries s.mode s.level c n).0 a,
        subst (λ (k : ℕ). Encodes k c.profile) (sym p) (can_carry-Encodes s.level c a),
        (table_modes_iff c (s.table, s.bit, s.mode)).0 j,
      ),
    )

select_level-OfMode :
    (wanted : VideoMode) (cs : List VideoCodecCaps)
    → OfMode wanted cs (select_level wanted (required_level wanted) cs)
unfolding select_level
select_level-OfMode wanted cs = elim (Option-cases (required_level wanted)) [
  | inl q ↦ rw (q) (λ (r, c, e, n, i, k, j, m). cc ((required_level-Needs wanted r).1 n))
  | inr (r, q) ↦
      rw (q) (at_level wanted r cs (select_codec wanted r cs) q (select_codec-AtLevel wanted r cs))
]

-- Of the whole preference: the first mode that the display can show is selected.
abbrev OfModes : List VideoMode → List VideoCodecCaps → Option ModeSelection → Type 0
OfModes ms cs none = All (λ m. IsShown cs m → ⊥) ms
OfModes ms cs (some s) =
    (before : List VideoMode) × (after : List VideoMode) × (ms ≡ before ++ (s.mode ∷ after))
    × All (λ m. IsShown cs m → ⊥) before
    × IsSelected cs s

onto_modes :
    (wanted : VideoMode) (ms : List VideoMode) (cs : List VideoCodecCaps)
    (here rest : Option ModeSelection)
    → OfMode wanted cs here
    → OfModes ms cs rest
    → OfModes (wanted ∷ ms) cs (elim here [ none ↦ rest | some s ↦ some s ])
onto_modes wanted ms cs (some s) rest (m, chosen) ih =
    ([], ms, ap (λ k. k ∷ ms) (sym m), tt, chosen)
onto_modes wanted ms cs none none f ih = (f, ih)
onto_modes wanted ms cs none (some s) f (before, after, e, skipped, chosen) =
    (wanted ∷ before, after, ap (λ l. wanted ∷ l) e, (f, skipped), chosen)

select_mode-OfModes :
    (ms : List VideoMode) (cs : List VideoCodecCaps) → OfModes ms cs (select_mode ms cs)
unfolding select_mode
select_mode-OfModes [] cs = tt
select_mode-OfModes (m ∷ ms) cs =
    onto_modes m ms cs (select_level m (required_level m) cs) (select_mode ms cs)
      (select_level-OfMode m cs) (select_mode-OfModes ms cs)

-- A choice from the source's modes.
abbrev pub IsChoice : SinkCaps → List VideoMode → Result ModeSelection NoCommonFormat → Type 0
IsChoice sink ours (ok s) = OfModes ours (codec_formats sink) (some s)
IsChoice sink ours (err e) = OfModes ours (codec_formats sink) none × (e.we_offered ≡ ours)

-- The source selects the first of its modes that the display can show: a format of the display
-- lists the mode, has a profile that the source encodes and reaches the lowest level that carries
-- the mode's macroblocks. A format lists a mode by a bit that is set in its mask for a table and
-- stands for the mode there. What it answers names that level, a profile of the format, the table
-- and the bit; it fails exactly where the display can show none of the modes.
pub choose_selection-IsChoice :
    (sink : SinkCaps) (ours : List VideoMode) → IsChoice sink ours (choose_selection sink ours)
unfolding choose_selection
choose_selection-IsChoice sink ours =
    go (select_mode ours (codec_formats sink)) (select_mode-OfModes ours (codec_formats sink))
  where
    go :
        (o : Option ModeSelection)
        → OfModes ours (codec_formats sink) o
        → IsChoice sink ours (elim o [
          | some selection ↦ ok selection
          | none ↦ err (record { sink_offered = sink_modes sink; we_offered = ours })
        ])
    go none h = (h, refl)
    go (some s) h = h
