-- ===== src/Miracast/Quality/Laws.antt =====
-- When the ceiling moves, and how far.
use castr.Base.{
  ℕ, ◌-◌, ◌+◌, ◌%◌, ◌^◌, ◌≤◌, ◌<◌, ◌≡◌, ◌⊎◌, inl, inr, refl, arith, Option, none, some,
  Option-cases, Bool-cases, true, ◌↔◌,
}
use mathlib.Core.Option.{some-injective}
use castr.Miracast.Quality.{BitrateLadder, is_early, judge, sample}

pub record IsValid (l : BitrateLadder) : Type 0 where
  pub within : l.rung < 3
  pub counted : l.clean < 2 ^ 32

-- The rung stays on the ladder.
pub sample-IsValid :
    (l : BitrateLadder) (cumulative_loss now : ℕ)
    → IsValid l
    → IsValid (sample l cumulative_loss now).0
unfolding sample
sample-IsValid l cumulative_loss now v = ground arith

-- A call less than a second after the last that counted.
abbrev pub Early : BitrateLadder → ℕ → Type 0
Early l now = (t : ℕ) × (l.last_sample ≡ some t) × (now - t < 1000000)

-- What a sample that counts does to the state, with the losses since the last one and the number of
-- clean samples in a row that this one would make.
abbrev pub Judged : BitrateLadder → ℕ → ℕ → BitrateLadder → Option ℕ → Type 0
Judged l losses clean l' out =
    ((5 ≤ losses)
      × (l'.rung ≡ 2)
      × (l'.clean ≡ 0)
      × (((l.rung ≡ 2) × (out ≡ none)) ⊎ ((l.rung < 2) × (out ≡ some 2000))))
    ⊎ ((losses < 5)
        × (10 ≤ clean)
        × (l'.rung + 1 ≡ l.rung)
        × (l'.clean ≡ 0)
        × (((l.rung ≡ 1) × (out ≡ some 8000)) ⊎ ((l.rung ≡ 2) × (out ≡ some 4000))))
    ⊎ ((losses < 5)
        × ((clean < 10) ⊎ (l.rung ≡ 0))
        × (l'.rung ≡ l.rung)
        × (l'.clean ≡ clean)
        × (out ≡ none))

is_early-Early : (l : BitrateLadder) (now : ℕ) → (is_early l now ≡ true) ↔ Early l now
unfolding is_early
is_early-Early l now = elim (Option-cases l.last_sample) [
  | inl e ↦ rw (e) ((λ h. cc), (λ h. cc (h.1)))
  | inr (t, e) ↦
      rw (e) ((λ h. (t, refl, ground arith)), (λ h. ground (arith, some-injective _ _ h.1)))
]

judge-Judged :
    (l : BitrateLadder) (losses : ℕ)
    → IsValid l
    → let (l', out) = judge l losses in
      (l'.last_sample ≡ l.last_sample)
      × (l'.last_loss ≡ l.last_loss)
      × Judged l losses ((l.clean + 1) % 2 ^ 32) l' out
unfolding judge
judge-Judged l losses v = ground arith

-- In a valid state a sample does one of four things, and the conditions say which. Within a second
-- of the last that counted it changes nothing and asks for nothing. Otherwise the time and the
-- losses are noted. With five losses or more since the last that counted it goes to the floor, and
-- asks for the floor's bitrate if it was not there yet. With fewer losses, and ten clean samples in
-- a row, counted in 32 bits, and a rung above, it rises by one rung, asks for the bitrate there and
-- counts afresh. In every other case it counts one clean sample more and asks for nothing.
pub sample-moves :
    (l : BitrateLadder) (cumulative_loss now : ℕ)
    → IsValid l
    → let (l', out) = sample l cumulative_loss now in
      (Early l now × (l' ≡ l) × (out ≡ none))
      ⊎ ((¬ Early l now)
          × (l'.last_sample ≡ some now)
          × (l'.last_loss ≡ cumulative_loss)
          × Judged l (cumulative_loss - l.last_loss) ((l.clean + 1) % 2 ^ 32) l' out)
unfolding sample
sample-moves l cumulative_loss now v = elim (Bool-cases (is_early l now)) [
  | inl e ↦ rw (sample, e) (inl ((is_early-Early l now).0 e, refl, refl))
  | inr e ↦
      let (t, k, m) =
        judge-Judged (record l { last_sample = some now; last_loss = cumulative_loss })
          (cumulative_loss - l.last_loss) (record { within = v.within; counted = v.counted }) in
      rw (sample, e) (inr ((λ h. cc ((is_early-Early l now).1 h)), t, k, m))
]
