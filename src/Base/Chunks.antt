-- ===== src/Base/Chunks.antt =====
-- `slice::chunks`: a list in pieces of at most `n`.
use Prim.Native.Nat.{ℕ, zero, suc, ◌+◌, ◌*◌, ◌≤◌, ◌<◌}
use mathlib.Core.Path.{◌≡◌, refl, ap, ◌∙◌}
use mathlib.Core.List.{List, [], ◌∷◌, ◌++◌}
use native.Mathlib.Omega.{arith}
use native.Mathlib.Nat.{suc-mul}
use castr.Base.Lists.{length, take, drop, flatten, All, length-take, length-drop, take-append-drop}

module _ {ℓ} {A : Type ℓ} where
  -- Each round takes an element at least where `n` is positive, so the length of the list is fuel
  -- enough.
  unfoldable pub chunks_loop : ℕ → ℕ → List A → List (List A)
  chunks_loop zero n xs = []
  chunks_loop (suc fuel) n [] = []
  chunks_loop (suc fuel) n (x ∷ xs) = take n (x ∷ xs) ∷ chunks_loop fuel n (drop n (x ∷ xs))

  unfoldable pub chunks : ℕ → List A → List (List A)
  unfolding chunks_loop
  chunks n xs = chunks_loop (length xs) n xs

  flatten-chunks_loop :
      (fuel n : ℕ) (xs : List A) → 0 < n → length xs ≤ fuel → flatten (chunks_loop fuel n xs) ≡ xs
  unfolding chunks_loop
  flatten-chunks_loop zero n [] h l = refl
  flatten-chunks_loop zero n (x ∷ xs) h l = absurd (omega arith)
  flatten-chunks_loop (suc fuel) n [] h l = refl
  flatten-chunks_loop (suc fuel) n (x ∷ xs) h l =
      ap (λ t. take n (x ∷ xs) ++ t)
        (flatten-chunks_loop fuel n (drop n (x ∷ xs)) h (omega (arith, length-drop n (x ∷ xs))))
      ∙ take-append-drop n (x ∷ xs)

  -- The pieces, put together, are the list.
  pub flatten-chunks : (n : ℕ) (xs : List A) → 0 < n → flatten (chunks n xs) ≡ xs
  unfolding chunks
  flatten-chunks n xs h = flatten-chunks_loop (length xs) n xs h (omega arith)

  -- A piece is not empty and within the limit.
  abbrev pub Fits : ℕ → List A → Type 0
  Fits n c = (0 < length c) × (length c ≤ n)

  chunks_loop-Fits : (fuel n : ℕ) (xs : List A) → 0 < n → All (Fits n) (chunks_loop fuel n xs)
  unfolding chunks_loop
  chunks_loop-Fits zero n xs h = tt
  chunks_loop-Fits (suc fuel) n [] h = tt
  chunks_loop-Fits (suc fuel) n (x ∷ xs) h = (
    (omega (arith, length-take n (x ∷ xs)), omega (arith, length-take n (x ∷ xs))),
    chunks_loop-Fits fuel n (drop n (x ∷ xs)) h,
  )

  pub chunks-Fits : (n : ℕ) (xs : List A) → 0 < n → All (Fits n) (chunks n xs)
  unfolding chunks
  chunks-Fits n xs h = chunks_loop-Fits (length xs) n xs h

  chunks_loop-count :
      (fuel n : ℕ) (xs : List A)
      → 0 < n
      → length xs ≤ fuel
      → let c = length (chunks_loop fuel n xs) in
        (length xs ≤ c * n) × (c * n < length xs + n) × (length xs ≡ 0 → c * n ≡ 0)
  unfolding chunks_loop
  chunks_loop-count zero n [] h l = ground arith
  chunks_loop-count zero n (x ∷ xs) h l = absurd (omega arith)
  chunks_loop-count (suc fuel) n [] h l = ground arith
  chunks_loop-count (suc fuel) n (x ∷ xs) h l =
      let d = length-drop n (x ∷ xs) in
      let (a, b, e) = chunks_loop-count fuel n (drop n (x ∷ xs)) h (omega (arith, d)) in
      let m = suc-mul (length (chunks_loop fuel n (drop n (x ∷ xs)))) n in
      (ground arith, ground arith, λ z. absurd (omega (arith, z)))

  -- As many pieces as it takes: with one less, some elements would be left.
  pub chunks-count :
      (n : ℕ) (xs : List A)
      → 0 < n
      → let c = length (chunks n xs) in (length xs ≤ c * n) × (c * n < length xs + n)
  unfolding chunks
  chunks-count n xs h = let (a, b, _) = chunks_loop-count (length xs) n xs h (omega arith) in (a, b)
