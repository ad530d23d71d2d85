-- ===== src/Base/Maps.antt =====
-- `BTreeMap<u32, V>`: an association list in ascending order of its keys, so that a walk over the
-- list is the map's own iteration.
use Prim.Native.Nat.{ℕ, ◌<◌, ◌≤◌}
use mathlib.Core.Path.{◌≡◌, refl}
use mathlib.Core.List.{List, [], ◌∷◌}
use mathlib.Core.Option.{Option, none, some}
use native.Mathlib.Omega.{arith}
use castr.Base.Tests.{ltb, ◌==◌, if◌then◌else◌}
use castr.Base.Lists.{All}

module _ {ℓ} {V : Type ℓ} where
  unfoldable pub lookup : ℕ → List (ℕ × V) → Option V
  lookup key [] = none
  lookup key ((other, v) ∷ rest) = if other == key then some v else lookup key rest

  unfoldable pub insert : ℕ → V → List (ℕ × V) → List (ℕ × V)
  insert new value [] = (new, value) ∷ []
  insert new value ((key, old) ∷ rest) =
      if ltb new key
      then (new, value) ∷ (key, old) ∷ rest
      else if new == key
      then (new, value) ∷ rest
      else (key, old) ∷ insert new value rest

  unfoldable pub remove : ℕ → List (ℕ × V) → List (ℕ × V)
  remove k [] = []
  remove k ((j, v) ∷ m) = let rest = remove k m in if j == k then rest else (j, v) ∷ rest

  -- Every key is above `b`, and they ascend.
  abbrev pub Above : ℕ → List (ℕ × V) → Type 0
  Above b [] = Unit
  Above b ((k, v) ∷ m) = (b < k) × Above k m

  abbrev pub IsAscending : List (ℕ × V) → Type 0
  IsAscending [] = Unit
  IsAscending ((k, v) ∷ m) = Above k m

  pub lookup-insert :
      (new asked : ℕ) (value : V) (entries : List (ℕ × V))
      → lookup asked (insert new value entries)
        ≡ (if new == asked then some value else lookup asked entries)
  unfolding lookup insert
  lookup-insert new asked value [] = refl
  lookup-insert new asked value ((key, old) ∷ rest) =
      ground (arith, lookup-insert new asked value rest)

  pub lookup-remove :
      (k j : ℕ) (m : List (ℕ × V)) → lookup j (remove k m) ≡ (if k == j then none else lookup j m)
  unfolding lookup remove
  lookup-remove k j [] = ground arith
  lookup-remove k j ((i, w) ∷ m) = ground (arith, lookup-remove k j m)

  Above-le : (a b : ℕ) (m : List (ℕ × V)) → a ≤ b → Above b m → Above a m
  Above-le a b [] h s = tt
  Above-le a b ((k, v) ∷ m) h s = (omega arith, s.1)

  Above-insert : (b k : ℕ) (v : V) (m : List (ℕ × V)) → b < k → Above b m → Above b (insert k v m)
  unfolding insert
  Above-insert b k v [] h s = (h, tt)
  Above-insert b k v ((j, w) ∷ m) h s = ground (arith, Above-insert j k v m)

  pub insert-IsAscending :
      (k : ℕ) (v : V) (m : List (ℕ × V)) → IsAscending m → IsAscending (insert k v m)
  unfolding insert
  insert-IsAscending k v [] s = tt
  insert-IsAscending k v ((j, w) ∷ m) s = ground (arith, Above-insert j k v m)

  Above-remove : (b k : ℕ) (m : List (ℕ × V)) → Above b m → Above b (remove k m)
  unfolding remove
  Above-remove b k [] s = tt
  Above-remove b k ((j, w) ∷ m) s = ground (arith, Above-remove j k m, Above-le b j (remove k m))

  pub remove-IsAscending : (k : ℕ) (m : List (ℕ × V)) → IsAscending m → IsAscending (remove k m)
  unfolding remove
  remove-IsAscending k [] s = tt
  remove-IsAscending k ((j, w) ∷ m) s = ground (arith, Above-remove j k m, drop_bound (remove k m))
    where
      drop_bound : (l : List (ℕ × V)) → Above j l → IsAscending l
      drop_bound [] s = tt
      drop_bound ((i, w) ∷ l) s = s.1

  pub All-insert {κ} :
      (P : V → Type κ) (k : ℕ) (v : V) (m : List (ℕ × V))
      → P v
      → All (λ e. P e.1) m
      → All (λ e. P e.1) (insert k v m)
  unfolding insert
  All-insert P k v [] p a = (p, tt)
  All-insert P k v ((j, w) ∷ m) p a = ground (arith, All-insert P k v m)

  pub All-remove {κ} :
      (P : V → Type κ) (k : ℕ) (m : List (ℕ × V))
      → All (λ e. P e.1) m
      → All (λ e. P e.1) (remove k m)
  unfolding remove
  All-remove P k [] a = tt
  All-remove P k ((j, w) ∷ m) a = ground (arith, All-remove P k m)

  pub All-lookup {κ} :
      (P : V → Type κ) (k : ℕ) (m : List (ℕ × V)) (v : V)
      → All (λ e. P e.1) m
      → lookup k m ≡ some v
      → P v
  unfolding lookup
  All-lookup P k [] v a e = cc
  All-lookup P k ((j, w) ∷ m) v a e = ground (arith, All-lookup P k m v)

  -- What is inserted and removed again leaves no trace on the other values.
  pub All-remove-insert {κ} :
      (P : V → Type κ) (k : ℕ) (v : V) (m : List (ℕ × V))
      → All (λ e. P e.1) m
      → All (λ e. P e.1) (remove k (insert k v m))
  unfolding remove insert
  All-remove-insert P k v [] a = ground arith
  All-remove-insert P k v ((j, w) ∷ m) a =
      ground (arith, All-remove-insert P k v m, All-remove P k m)

  pub lookup-Above : (b k : ℕ) (m : List (ℕ × V)) → Above b m → k ≤ b → lookup k m ≡ none
  unfolding lookup
  lookup-Above b k [] a h = refl
  lookup-Above b k ((j, w) ∷ m) a h = ground (arith, lookup-Above j k m a.1)
