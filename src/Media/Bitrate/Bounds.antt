-- ===== src/Media/Bitrate/Bounds.antt =====
-- The bitrate stays within its limits and the rung on its ladder.
use castr.Base.{
  ℕ, ◌≤◌, ◌<◌, ◌≡◌, ◌≢◌, ◌⊎◌, arith, Bool, Option, none, some, if◌then◌else◌, length, Returns,
}
use castr.Base.Words.{IsU32}
use castr.Proto.Control.{Mode, game, quality, Stats}
use castr.Media.Bitrate.{
  Floats, Resolution, Decision, BitrateController, new, current, cut, raise, adapt, update,
  on_stats, min_bitrate, is_same,
}

-- The ceiling leaves room in a `u32` for one rise more.
pub record IsValid (c : BitrateController) : Type 0 where
  pub above : min_bitrate ≤ c.bitrate
  pub below : c.bitrate ≤ c.ceiling
  pub room : c.ceiling ≤ 4000000000
  pub on_ladder : c.rung < length c.ladder

-- A product with one of the two factors, truncated, is no more than the number.
pub record Shrinks (fl : Floats) : Type 0 where
  pub shrinks_7 : (b : ℕ) → IsU32 b → fl.to_u32 (fl.mul (fl.from_u32 b) fl.c0_7) ≤ b
  pub shrinks_85 : (b : ℕ) → IsU32 b → fl.to_u32 (fl.mul (fl.from_u32 b) fl.c0_85) ≤ b

raise-IsValid :
    (clean : Bool) (c : BitrateController) (now_us : ℕ) → IsValid c → IsValid (raise clean c now_us)
unfolding raise
raise-IsValid clean c now_us v = ground arith

adapt-IsValid :
    (m : Mode) (deep : Bool) (c : BitrateController) (now_us : ℕ)
    → IsValid c
    → IsValid (adapt m deep c now_us)
unfolding adapt
adapt-IsValid quality deep c now_us v = v
adapt-IsValid game deep c now_us v = ground arith

pub new-IsValid :
    (ceiling initial : ℕ) (native : Resolution) (mode : Mode)
    → min_bitrate ≤ ceiling
    → ceiling ≤ 4000000000
    → Returns IsValid (new ceiling initial native mode)
unfolding new
new-IsValid ceiling initial native mode h k = ground arith

answers :
    (old new : Decision)
    → let answer : Option Decision = if is_same new old then none else some new in
      ((answer ≡ none)
        × (new.bitrate_bps ≡ old.bitrate_bps)
        × (new.resolution.width ≡ old.resolution.width)
        × (new.resolution.height ≡ old.resolution.height))
      ⊎ ((answer ≡ some new)
          × ((new.bitrate_bps ≢ old.bitrate_bps)
              ⊎ (new.resolution.width ≢ old.resolution.width)
              ⊎ (new.resolution.height ≢ old.resolution.height)))
unfolding is_same
answers old new = ground arith

module _ (fl : Floats) (s : Shrinks fl) where
  cut-IsValid :
      (loss : fl.F) (stats : Stats) (c : BitrateController) (now_us : ℕ)
      → IsValid c
      → IsValid (cut fl loss stats c now_us)
  unfolding cut
  cut-IsValid loss stats c now_us v = ground (arith, s.shrinks_7 c.bitrate, s.shrinks_85 c.bitrate)

  -- In a valid state, and with factors that do not enlarge a number, every report leaves the
  -- bitrate between its floor and its ceiling and the rung on the ladder. Nothing is answered
  -- exactly if the bitrate and both sides of the resolution are what they were; if one of them
  -- differs, the answer is the new state's bitrate and resolution.
  pub on_stats-IsValid :
      (c : BitrateController) (stats : Stats) (now_us : ℕ)
      → IsValid c
      → let (c', answer) = on_stats fl c stats now_us in
        let old = current c in
        let new = current c' in
        IsValid c'
        × (((answer ≡ none)
              × (new.bitrate_bps ≡ old.bitrate_bps)
              × (new.resolution.width ≡ old.resolution.width)
              × (new.resolution.height ≡ old.resolution.height))
            ⊎ ((answer ≡ some new)
                × ((new.bitrate_bps ≢ old.bitrate_bps)
                    ⊎ (new.resolution.width ≢ old.resolution.width)
                    ⊎ (new.resolution.height ≢ old.resolution.height))))
  unfolding on_stats update is_same
  on_stats-IsValid c stats now_us v = (
    adapt-IsValid _ _ _ now_us (raise-IsValid _ _ now_us (cut-IsValid _ stats c now_us v)),
    answers (current c) (current (update fl c stats now_us)),
  )
