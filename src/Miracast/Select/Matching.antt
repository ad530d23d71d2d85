-- ===== src/Miracast/Select/Matching.antt =====
-- What a name means among the displays that are there.
use castr.Base.{
  ◌≡◌, inl, inr, refl, sym, subst, Bool, true, false, not, List, [], ◌∷◌, Result, ok, err, is_empty,
  Bool-cases, map,
}
use castr.Base.Bytes.{Bytes}
use castr.Miracast.Caps.Masks.{In}
use castr.Miracast.Select.{
  Candidate, is_display, NoMatch, not_found, not_a_display, ambiguous, keep, is_exact,
  is_insensitive, has_prefix, hits, judge_hits, match_by_name,
}

-- Of the candidates, `c` alone passes the test.
abbrev pub IsOnly : (Candidate → Bool) → List Candidate → Candidate → Type 0
IsOnly p cs c = In c cs × (p c ≡ true) × ((d : Candidate) → In d cs → p d ≡ true → d ≡ c)

-- No candidate passes the test.
abbrev pub FitsNone : (Candidate → Bool) → List Candidate → Type 0
FitsNone p cs = (d : Candidate) → In d cs → p d ≡ false

In-keep :
    (p : Candidate → Bool) (cs : List Candidate) (d : Candidate)
    → In d cs
    → p d ≡ true
    → In d (keep p cs)
unfolding keep
In-keep p [] d i h = absurd i
In-keep p (c ∷ cs) d (inl e) h = rw (subst (λ x. p x ≡ true) e h) (inl e)
In-keep p (c ∷ cs) d (inr i) h = elim (Bool-cases (p c)) [
  | inl t ↦ rw (t) (inr (In-keep p cs d i h))
  | inr f ↦ rw (f) (In-keep p cs d i h)
]

keep-In :
    (p : Candidate → Bool) (cs : List Candidate) (d : Candidate)
    → In d (keep p cs)
    → In d cs × (p d ≡ true)
unfolding keep
keep-In p [] d i = absurd i
keep-In p (c ∷ cs) d i = elim (Bool-cases (p c)) [
  | inl t ↦
      let j : In d (c ∷ keep p cs) = rw (t) at i in
      elim j [
        | inl e ↦ (inl e, subst (λ x. p x ≡ true) (sym e) t)
        | inr k ↦ let (l, h) = keep-In p cs d k in (inr l, h)
      ]
  | inr f ↦ let (l, h) = keep-In p cs d (rw (f) at i) in (inr l, h)
]

keep-FitsNone : (p : Candidate → Bool) (cs : List Candidate) → keep p cs ≡ [] → FitsNone p cs
keep-FitsNone p cs e d i = elim (Bool-cases (p d)) [
  | inl t ↦ absurd (subst (λ l. In d l) e (In-keep p cs d i t))
  | inr f ↦ f
]

keep-IsOnly :
    (p : Candidate → Bool) (cs : List Candidate) (c : Candidate)
    → keep p cs ≡ c ∷ []
    → IsOnly p cs c
keep-IsOnly p cs c e =
    let (i, h) = keep-In p cs c (subst (λ l. In c l) (sym e) (inl refl)) in
    (
      i,
      h,
      λ d j t. elim (subst (λ l. In d l) e (In-keep p cs d j t)) [ inl q ↦ q | inr q ↦ absurd q ],
    )

-- The readings of a name, from the strictest on.
pub data Reading : Type 0 where
  exact insensitive prefix : Reading

abbrev pub test_of : Reading → Bytes → Candidate → Bool
test_of exact name = is_exact name
test_of insensitive name = is_insensitive name
test_of prefix name = has_prefix name

-- No stricter reading fits any candidate.
abbrev pub IsStrictest : List Candidate → Bytes → Reading → Type 0
IsStrictest cs name exact = Unit
IsStrictest cs name insensitive = FitsNone (is_exact name) cs
IsStrictest cs name prefix = FitsNone (is_exact name) cs × FitsNone (is_insensitive name) cs

is_empty-eq : (cs : List Candidate) → not (is_empty cs) ≡ false → cs ≡ []
is_empty-eq [] e = refl
is_empty-eq (c ∷ cs) e = cc

-- What the hits are: those of one reading, which only the last may leave without any.
abbrev OfReading : List Candidate → Bytes → Type 0
OfReading cs name =
    (r : Reading) × (hits cs name ≡ keep (test_of r name) cs)
    × IsStrictest cs name r
    × (hits cs name ≡ [] → r ≡ prefix)

hits-OfReading : (cs : List Candidate) (name : Bytes) → OfReading cs name
unfolding hits
hits-OfReading cs name =
    let e = keep (is_exact name) cs in
    let i = keep (is_insensitive name) cs in
    elim (Bool-cases (not (is_empty e))) [
      | inl some_exact ↦
          (exact, rw (some_exact) refl, tt, rw (some_exact) (λ q. nonempty_absurd e some_exact q))
      | inr no_exact ↦
          let none_exact = keep-FitsNone (is_exact name) cs (is_empty-eq e no_exact) in
          elim (Bool-cases (not (is_empty i))) [
            | inl some_case ↦ (
              insensitive,
              rw (no_exact, some_case) refl,
              none_exact,
              rw (no_exact, some_case) (λ q. nonempty_absurd i some_case q),
            )
            | inr no_case ↦ (
              prefix,
              rw (no_exact, no_case) refl,
              (none_exact, keep-FitsNone (is_insensitive name) cs (is_empty-eq i no_case)),
              λ q. refl,
            )
          ]
    ]
  where
    nonempty_absurd :
        {r : Reading} (l : List Candidate) → not (is_empty l) ≡ true → l ≡ [] → r ≡ prefix
    nonempty_absurd [] h q = cc
    nonempty_absurd (c ∷ l) h q = cc

-- What an answer says of the candidates.
abbrev pub Means : List Candidate → Bytes → Result Candidate NoMatch → Type 0
Means cs name (ok c) =
    (r : Reading) × IsStrictest cs name r × IsOnly (test_of r name) cs c × (is_display c ≡ true)
Means cs name (err not_found) =
    FitsNone (is_exact name) cs × FitsNone (is_insensitive name) cs × FitsNone (has_prefix name) cs
Means cs name (err (not_a_display n)) =
    (r : Reading) × (c : Candidate) × IsStrictest cs name r
    × IsOnly (test_of r name) cs c
    × (is_display c ≡ false)
    × (n ≡ c.name)
Means cs name (err (ambiguous names)) =
    (r : Reading) × (c : Candidate) × (d : Candidate) × (rest : List Candidate) × IsStrictest cs
      name r
    × (keep (test_of r name) cs ≡ c ∷ d ∷ rest)
    × (names ≡ map (λ x. x.name) (c ∷ d ∷ rest))

judge_hits-Means :
    (cs : List Candidate) (name : Bytes) (r : Reading) (found : List Candidate)
    → keep (test_of r name) cs ≡ found
    → IsStrictest cs name r
    → (found ≡ [] → r ≡ prefix)
    → Means cs name (judge_hits found)
unfolding judge_hits
judge_hits-Means cs name r [] e s last =
    let p = last refl in
    let s' = subst (IsStrictest cs name) p s in
    (
      s'.0,
      s'.1,
      keep-FitsNone (has_prefix name) cs (subst (λ k. keep (test_of k name) cs ≡ []) p e),
    )
judge_hits-Means cs name r (c ∷ []) e s last =
    let only = keep-IsOnly (test_of r name) cs c e in
    elim (Bool-cases (is_display c)) [
      | inl yes_display ↦ rw (yes_display) (r, s, only, yes_display)
      | inr no_display ↦ rw (no_display) (r, c, s, only, no_display, refl)
    ]
judge_hits-Means cs name r (c ∷ d ∷ rest) e s last = (r, c, d, rest, s, e, refl)

-- A name means the one display that it fits in the strictest reading that fits any candidate: as it
-- is, then ignoring case, then as a prefix. Where that is no display, or there are several, or none
-- fits in any reading, the answer says so, and names them.
pub match_by_name-Means :
    (cs : List Candidate) (name : Bytes) → Means cs name (match_by_name cs name)
unfolding match_by_name
match_by_name-Means cs name =
    let (r, e, s, last) = hits-OfReading cs name in
    judge_hits-Means cs name r (hits cs name) (sym e) s last
