-- ===== src/Base/Trim.antt =====
-- Texts that are trimmed and split give back the parts that they were made of.
use castr.Base.Bytes.{Bytes}
use castr.Base.Strings.{
  is_utf8_from, is_utf8, space_len, trim_start_loop, trim_start, trim_end, trim, strip_prefix,
  starts_with, split_once, split, onto_first, split_crlf,
}
use castr.Base.Tests.{◌==◌, Bool-cases, ==_refl}
use castr.Base.Lists.{All, length, drop}
use Prim.Native.Nat.{ℕ, zero, suc, ◌<◌, ◌≤◌}
use mathlib.Core.Path.{◌≡◌, refl, sym, ap, ◌∙◌}
use mathlib.Core.Logic.{◌≢◌, inl, inr}
use mathlib.Core.Bool.{true, false}
use mathlib.Core.List.{List, [], ◌∷◌, ◌++◌}
use mathlib.Core.Option.{none, some}
use native.Mathlib.Omega.{arith}

abbrev pub IsGraphic : ℕ → Type 0
IsGraphic c = (33 ≤ c) × (c < 128)

space_len-graphic : (c : ℕ) (s : Bytes) → IsGraphic c → space_len (c ∷ s) ≡ 0
unfolding space_len
space_len-graphic c [] h = ground arith
space_len-graphic c (d ∷ []) h = ground arith
space_len-graphic c (d ∷ e ∷ s) h = ground arith

space_len-space : (s : Bytes) → space_len (32 ∷ s) ≡ 1
unfolding space_len
space_len-space [] = refl
space_len-space (d ∷ []) = refl
space_len-space (d ∷ e ∷ s) = refl

trim_start_loop_stays : (fuel : ℕ) (s : Bytes) → space_len s ≡ 0 → trim_start_loop fuel s ≡ s
unfolding trim_start_loop
trim_start_loop_stays zero s h = refl
trim_start_loop_stays (suc fuel) s h = rw (h) (trim_start_loop_stays fuel s h)

trim_start-graphic : (c : ℕ) (s : Bytes) → IsGraphic c → trim_start (c ∷ s) ≡ c ∷ s
unfolding trim_start
trim_start-graphic c s h = trim_start_loop_stays (length (c ∷ s)) (c ∷ s) (space_len-graphic c s h)

trim_end-graphic : (s : Bytes) → All IsGraphic s → trim_end s ≡ s
unfolding trim_end
trim_end-graphic [] a = refl
trim_end-graphic (c ∷ s) a =
    rw (trim_start-graphic c s a.0) (ap (λ t. c ∷ t) (trim_end-graphic s a.1))

pub trim-graphic : (s : Bytes) → All IsGraphic s → trim s ≡ s
unfolding trim trim_end trim_start trim_start_loop
trim-graphic [] a = refl
trim-graphic (c ∷ s) a = rw (trim_start-graphic c s a.0) (trim_end-graphic (c ∷ s) a)

trim_start_loop-space :
    (fuel : ℕ) (s : Bytes) → trim_start_loop (suc fuel) (32 ∷ s) ≡ trim_start_loop fuel s
unfolding trim_start_loop
trim_start_loop-space fuel s = ap (λ n. trim_start_loop fuel (drop n (32 ∷ s))) (space_len-space s)

pub trim-space : (s : Bytes) → trim (32 ∷ s) ≡ trim s
unfolding trim trim_start
trim-space s = ap trim_end (trim_start_loop-space (length s) s)

pub is_utf8-ascii : (s : Bytes) → All (λ c. c < 128) s → is_utf8 s ≡ true
unfolding is_utf8 is_utf8_from
is_utf8-ascii [] a = refl
is_utf8-ascii (c ∷ s) a = ground (arith, is_utf8-ascii s a.1, a.0)

pub split_once-append :
    (sep : ℕ) (k v : Bytes) → All (λ c. c ≢ sep) k → split_once sep (k ++ (sep ∷ v)) ≡ some (k, v)
split_once-append sep [] v a = ground arith
split_once-append sep (c ∷ k) v a = ground (arith, split_once-append sep k v a.1, a.0)

ne→== : (a b : ℕ) → a ≢ b → (a == b) ≡ false
ne→== a b h = ground arith

pub split-append :
    (sep : ℕ) (k v : Bytes) → All (λ c. c ≢ sep) k → split sep (k ++ (sep ∷ v)) ≡ k ∷ split sep v
split-append sep [] v a = rw (==_refl sep) refl
split-append sep (c ∷ k) v a = rw (ne→== c sep a.0, split-append sep k v a.1) refl

pub split-none : (sep : ℕ) (k : Bytes) → All (λ c. c ≢ sep) k → split sep k ≡ k ∷ []
split-none sep [] a = refl
split-none sep (c ∷ k) a = rw (ne→== c sep a.0, split-none sep k a.1) refl

pub strip_prefix-append : (p s : Bytes) → strip_prefix p (p ++ s) ≡ some s
strip_prefix-append [] s = refl
strip_prefix-append (c ∷ p) s = rw (==_refl c) (strip_prefix-append p s)

-- A prefix with a slash, and no space before it, is not one of a text that has no slash before its
-- first space.
pub strip_prefix-slash :
    (p q m s : Bytes)
    → All (λ c. c ≢ 32) p
    → All (λ c. c ≢ 47) m
    → strip_prefix (p ++ (47 ∷ q)) (m ++ (32 ∷ s)) ≡ none
strip_prefix-slash [] q [] s a b = refl
strip_prefix-slash [] q (c ∷ m) s a b = ground (arith, b.0)
strip_prefix-slash (x ∷ p) q [] s a b = ground (arith, a.0)
strip_prefix-slash (x ∷ p) q (c ∷ m) s a b = ground (arith, strip_prefix-slash p q m s a.1 b.1)

-- A line that is read off the front of a text with the separator CR LF after it.
abbrev pub NoCr : Bytes → Type 0
NoCr s = All (λ c. c ≢ 13) s

abbrev Parts : Bytes → Type 0
Parts s = (l : Bytes) × (ls : List Bytes) × (split_crlf s ≡ l ∷ ls)

split_crlf-Parts : (s : Bytes) → Parts s
split_crlf-Parts [] = ([], [], refl)
split_crlf-Parts (c ∷ s) =
    let (l, ls, e) = split_crlf-Parts s in
    elim (Bool-cases (starts_with (13 ∷ 10 ∷ []) (c ∷ s))) [
      | inl here ↦ ([], drop 1 l ∷ ls, rw (here, e) refl)
      | inr on ↦ (c ∷ l, ls, rw (on, e) refl)
    ]

split_crlf-lf : (s : Bytes) → split_crlf (13 ∷ 10 ∷ s) ≡ [] ∷ split_crlf s
split_crlf-lf s = let (l, ls, e) = split_crlf-Parts s in rw (e) refl

split_crlf-step : (c : ℕ) (s : Bytes) → c ≢ 13 → split_crlf (c ∷ s) ≡ onto_first c (split_crlf s)
split_crlf-step c s h = rw (ne→== 13 c (λ e. h (sym e))) refl

pub split_crlf-append : (l s : Bytes) → NoCr l → split_crlf (l ++ (13 ∷ 10 ∷ s)) ≡ l ∷ split_crlf s
split_crlf-append [] s a = split_crlf-lf s
split_crlf-append (c ∷ l) s a =
    split_crlf-step c (l ++ (13 ∷ 10 ∷ s)) a.0 ∙ ap (onto_first c) (split_crlf-append l s a.1)

pub split_crlf-none : (l : Bytes) → NoCr l → split_crlf l ≡ l ∷ []
split_crlf-none [] a = refl
split_crlf-none (c ∷ l) a = split_crlf-step c l a.0 ∙ ap (onto_first c) (split_crlf-none l a.1)
