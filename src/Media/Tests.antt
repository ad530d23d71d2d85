-- ===== src/Media/Tests.antt =====
-- Runs of the media components, and their theorems at concrete inputs.
use castr.Base.{
  ℕ, ◌-◌, ◌+◌, ◌*◌, ◌/◌, ◌≤◌, ◌≡◌, ◌≢◌, ◌⊎◌, ◌↔◌, arith, Bool, true, false, none, some, List, [],
  ◌∷◌, Returns, ltb,
}
use castr.Proto.Control.{game, quality, Stats}
use castr.Proto.Reassemble.{CompleteFrame}
use castr.Media.Jitter
use castr.Media.Jitter.{JitterBuffer, pop}
use castr.Media.Jitter.Pop.{IsValid, Popped, pop-Popped}
use castr.Media.Jitter.Stream.{Call, arrive, show, change_mode, run, Playable, run-new}
use castr.Media.Bitrate.{Floats, BitrateController, current, on_stats}
use castr.Media.Bitrate.Bounds
use castr.Media.Bitrate.Bounds.{Shrinks, on_stats-IsValid}
use castr.Media.Clock
use castr.Media.Clock.{AvClock, audio_played, presented_ts, video_due}
use castr.Media.Clock.Follow.{video_due-audio_played}

abbrev frame_at : ℕ → Bool → CompleteFrame
frame_at n keyframe = record {
  stream = 0;
  frame_number = n;
  timestamp_us = 33333 * n;
  keyframe = keyframe;
  bytes = n ∷ [];
}

-- Behind frame 4, with frame 6 here and frame 5 not.
abbrev behind_gap : JitterBuffer
behind_gap = record {
  mode = game;
  interval_us = 33333;
  frames = frame_at 6 false ∷ frame_at 7 true ∷ [];
  last_popped = some 4;
  base_us = some 100;
  dropped = 0;
  need_keyframe = false;
  gap_since = none;
}

behind_gap-IsValid : IsValid behind_gap
behind_gap-IsValid = ground arith

pop-Popped_example : Returns (Popped behind_gap) (pop behind_gap 250000)
pop-Popped_example = pop-Popped behind_gap 250000 behind_gap-IsValid

abbrev calls : List Call
calls =
    arrive (frame_at 2 false) 10
    ∷ arrive (frame_at 1 true) 20
    ∷ show 30
    ∷ show 40
    ∷ change_mode quality
    ∷ show 50
    ∷ []

run-new_example : Returns (λ x. Playable none x.1) (run (Jitter.new game 33333) calls)
run-new_example = run-new game 33333 calls

-- Thousandths in place of floating-point numbers.
abbrev thousandths : Floats
thousandths = record {
  F = ℕ;
  from_u32 = λ n. n * 1000;
  div = λ a b. a * 1000 / b;
  mul = λ a b. a * b / 1000;
  lt = ltb;
  to_u32 = λ a. a / 1000;
  c0 = 0;
  c0_005 = 5;
  c0_02 = 20;
  c0_7 = 700;
  c0_85 = 850;
}

thousandths-Shrinks : Shrinks thousandths
thousandths-Shrinks = record { shrinks_7 = λ b h. omega arith; shrinks_85 = λ b h. omega arith }

abbrev controller : BitrateController
controller = record {
  ceiling = 20000000;
  bitrate = 8000000;
  ladder = record { width = 1920; height = 1080 } ∷ record { width = 1280; height = 720 } ∷ [];
  rung = 0;
  mode = game;
  last_cut_us = none;
  clean_since_us = none;
  at_floor_since_us = none;
  last_raise_us = none;
  last_step_up_us = none;
  queue_high_since_us = none;
  step_up_wait_us = 5000000;
}

abbrev lossy : Stats
lossy = record {
  frames_received = 30;
  frames_dropped = 0;
  fragments_lost = 30;
  fragments_received = 970;
  decode_queue_depth = 0;
  interval_ms = 1000;
}

controller-IsValid : Bounds.IsValid controller
controller-IsValid = ground arith

on_stats-IsValid_example :
    let (c', answer) = on_stats thousandths controller lossy 1000000 in
    let new = current c' in
    Bounds.IsValid c'
    × (((answer ≡ none)
          × (new.bitrate_bps ≡ 8000000)
          × (new.resolution.width ≡ 1920)
          × (new.resolution.height ≡ 1080))
        ⊎ ((answer ≡ some new)
            × ((new.bitrate_bps ≢ 8000000)
                ⊎ (new.resolution.width ≢ 1920)
                ⊎ (new.resolution.height ≢ 1080))))
unfolding current
on_stats-IsValid_example =
    on_stats-IsValid thousandths thousandths-Shrinks controller lossy 1000000 controller-IsValid

video_due-audio_played_example :
    (presented_ts (audio_played Clock.new 5000 1000) 3000 ≡ some (5000 + (3000 - 1000)))
    × ((video_due (audio_played Clock.new 5000 1000) 6000 3000).0
        ≡ audio_played Clock.new 5000 1000)
    × (((video_due (audio_played Clock.new 5000 1000) 6000 3000).1 ≡ true)
        ↔ (6000 ≤ 5000 + (3000 - 1000)))
video_due-audio_played_example =
    video_due-audio_played Clock.new 5000 1000 3000 6000 (omega arith) (omega arith) (omega arith)

abbrev silent : AvClock
silent = record { audio_anchor = none; video_offset = none }
