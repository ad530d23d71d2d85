-- ===== src/Codec/Annexb/Units.antt =====
-- The scan that skips past each start code finds what a look at every position finds.
use castr.Base.{
  ℕ, ◌≡◌, ◌≢◌, refl, ap, ◌∙◌, sym, arith, Bool-cases, inl, inr, ◌&&◌, List, [], ◌∷◌, ◌++◌, ◌==◌,
  if◌then◌else◌,
}
use castr.Base.Bytes.{Bytes}
use castr.Codec.Annexb.{unit_at, nal_types_from, nal_types}

-- A look at every position.
unfoldable pub every_unit : Bytes → List ℕ
every_unit [] = []
every_unit (x ∷ []) = []
every_unit (x ∷ y ∷ []) = []
every_unit (x ∷ y ∷ z ∷ rest) =
    let later = every_unit (y ∷ z ∷ rest) in
    if x == 0 && y == 0 && z == 1 then unit_at rest ++ later else later

every_unit_first : (x : ℕ) (ys : Bytes) → x ≢ 0 → every_unit (x ∷ ys) ≡ every_unit ys
unfolding every_unit
every_unit_first x [] h = refl
every_unit_first x (y ∷ []) h = refl
every_unit_first x (y ∷ z ∷ rest) h = ground arith

every_unit_second : (x y : ℕ) (ys : Bytes) → y ≢ 0 → every_unit (x ∷ y ∷ ys) ≡ every_unit ys
unfolding every_unit
every_unit_second x y [] h = refl
every_unit_second x y (z ∷ rest) h = let q = every_unit_first y (z ∷ rest) h in ground (arith, q)

nal_types_from_lem : (bytes : Bytes) → nal_types_from 0 bytes ≡ every_unit bytes
unfolding nal_types_from every_unit
nal_types_from_lem [] = refl
nal_types_from_lem (x ∷ []) = refl
nal_types_from_lem (x ∷ y ∷ []) = refl
nal_types_from_lem (x ∷ y ∷ z ∷ rest) = elim (Bool-cases (x == 0 && y == 0 && z == 1)) [
  | inl e ↦
      let q : every_unit (y ∷ z ∷ rest) ≡ every_unit rest =
        every_unit_second y z rest (ground arith) in
      rw e (ap (λ (l : List ℕ). unit_at rest ++ l) (nal_types_from_lem rest ∙ sym q))
  | inr e ↦ rw e (nal_types_from_lem (y ∷ z ∷ rest))
]

-- Start codes do not overlap: the scan, which goes on behind each start code that it finds, answers
-- the types that a look at every position answers.
pub nal_types_lem : (bytes : Bytes) → nal_types bytes ≡ every_unit bytes
unfolding nal_types
nal_types_lem bytes = nal_types_from_lem bytes
