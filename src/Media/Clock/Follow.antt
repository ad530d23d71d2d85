-- ===== src/Media/Clock/Follow.antt =====
-- Video follows audio, before and after the audio goes stale.
use castr.Base.{ℕ, ◌-◌, ◌+◌, ◌^◌, ◌≤◌, ◌<◌, ◌≡◌, ◌↔◌, arith, true, none, some}
use castr.Media.Clock.{AvClock, audio_played, presented_ts, video_due}

-- After audio of time `ts` at `at`, the moment on show is `ts` plus the time since, fresh or stale,
-- for as long as these are times below 2 ^ 62 microseconds; so a frame is due exactly from its time
-- on.
pub video_due-audio_played :
    (c : AvClock) (ts at now frame_ts : ℕ)
    → ts < 2 ^ 62
    → now < 2 ^ 62
    → at ≤ now
    → (presented_ts (audio_played c ts at) now ≡ some (ts + (now - at)))
      × ((video_due (audio_played c ts at) frame_ts now).0 ≡ audio_played c ts at)
      × (((video_due (audio_played c ts at) frame_ts now).1 ≡ true) ↔ (frame_ts ≤ ts + (now - at)))
unfolding presented_ts video_due audio_played
video_due-audio_played c ts at now frame_ts h k l = ground arith

-- Without audio the first frame is due at once, and each later one just as much later as its time
-- is.
pub video_due-video_due :
    (c : AvClock) (first at frame_ts now : ℕ)
    → c.audio_anchor ≡ none
    → c.video_offset ≡ none
    → first < 2 ^ 62
    → now < 2 ^ 62
    → at ≤ now
    → ((video_due c first at).1 ≡ true)
      × (((video_due (video_due c first at).0 frame_ts now).1 ≡ true)
          ↔ (frame_ts ≤ first + (now - at)))
unfolding presented_ts video_due
video_due-video_due c first at frame_ts now a v h k l = ground arith
