-- ===== src/Media/Clock.antt =====
-- crates/castr-media/src/clock.rs: which moment of the stream is on show. `i64` values are bit
-- patterns (Base/Words). The drift ratio, which is floating-point throughout, is left out.
pub mod Follow
use castr.Base.{ℕ, ◌-◌, ◌^◌, Bool, true, not, Option, none, some, ltb, leb, if◌then◌else◌}
use castr.Base.Words.{add64, sub64}

abbrev pub stale_us : ℕ
stale_us = 200000

pub record AvClock : Type 0 where
  pub audio_anchor : Option (ℕ × ℕ)
  pub video_offset : Option ℕ

unfoldable pub new : AvClock
new = record { audio_anchor = none; video_offset = none }

unfoldable pub audio_played : AvClock → ℕ → ℕ → AvClock
audio_played c ts_us now_us = record {
  audio_anchor = some (ts_us, now_us);
  video_offset = some (sub64 now_us ts_us);
}

unfoldable pub audio_stale : AvClock → ℕ → Bool
audio_stale c now_us = elim c.audio_anchor [
  | none ↦ true
  | some (ts, at) ↦ leb stale_us (now_us - at)
]

-- `x.max(0) as u64`, of the bit pattern of an `i64`.
abbrev pub nonneg : ℕ → ℕ
nonneg x = if ltb x (2 ^ 63) then x else 0

-- By the offset alone.
abbrev pub by_offset : Option ℕ → ℕ → Option ℕ
by_offset none now_us = none
by_offset (some off) now_us = some (nonneg (sub64 now_us off))

unfoldable pub presented_ts : AvClock → ℕ → Option ℕ
unfolding audio_stale
presented_ts c now_us = elim c.audio_anchor [
  | none ↦ by_offset c.video_offset now_us
  | some (ts, at) ↦
      if not (audio_stale c now_us)
      then some (add64 ts (now_us - at))
      else by_offset c.video_offset now_us
]

abbrev pub has_reached : Option ℕ → ℕ → Bool
has_reached none frame_ts_us = true
has_reached (some p) frame_ts_us = leb frame_ts_us p

unfoldable pub video_due : AvClock → ℕ → ℕ → AvClock × Bool
unfolding presented_ts
video_due c frame_ts_us now_us = elim c.video_offset [
  | none ↦ (record c { video_offset = some (sub64 now_us frame_ts_us) }, true)
  | some off ↦ (c, has_reached (presented_ts c now_us) frame_ts_us)
]
