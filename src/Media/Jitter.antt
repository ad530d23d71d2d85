-- ===== src/Media/Jitter.antt =====
-- crates/castr-media/src/jitter.rs: the queue between reassembly and the decoder. `i64` values are
-- bit patterns (Base/Words).
pub mod Pop
pub mod Stream
use castr.Base.{
  ℕ, zero, suc, ◌-◌, ◌%◌, ◌^◌, Bool, true, false, not, ◌&&◌, ◌||◌, Option, none, some, List, [],
  ◌∷◌, ◌++◌, ltb, ◌==◌, if◌then◌else◌, length, get_elem?, drop, position, insert_at, unwrap_or,
}
use castr.Base.Words.{add32, add64, sub64, ltb_i64, leb_i64}
use castr.Proto.Control.{Mode, game, quality}
use castr.Proto.Reassemble.{CompleteFrame, frame_newer_or_eq}

abbrev pub quality_delay_us : ℕ
quality_delay_us = 150000

abbrev pub game_max_depth : ℕ
game_max_depth = 30

abbrev pub quality_max_late_us : ℕ
quality_max_late_us = 500000

abbrev pub gap_wait_us : ℕ
gap_wait_us = 150000

abbrev pub wait_max_depth : ℕ
wait_max_depth = 120

pub record JitterBuffer : Type 0 where
  pub mode : Mode
  pub interval_us : ℕ
  pub frames : List CompleteFrame
  pub last_popped : Option ℕ
  pub base_us : Option ℕ
  pub dropped : ℕ
  pub need_keyframe : Bool
  pub gap_since : Option ℕ

unfoldable pub new : Mode → ℕ → JitterBuffer
new mode frame_interval_us = record {
  mode = mode;
  interval_us = frame_interval_us;
  frames = [];
  last_popped = none;
  base_us = none;
  dropped = 0;
  need_keyframe = true;
  gap_since = none;
}

unfoldable pub require_keyframe : JitterBuffer → JitterBuffer
require_keyframe j = record j { need_keyframe = true }

unfoldable pub flush : JitterBuffer → JitterBuffer
flush j = record j { frames = []; base_us = none; need_keyframe = true; gap_since = none }

unfoldable pub set_mode : JitterBuffer → Mode → JitterBuffer
unfolding flush
set_mode j mode = flush (record j { mode = mode })

unfoldable pub depth : JitterBuffer → ℕ
depth j = length j.frames

-- `std::mem::take` of the counter.
unfoldable pub take_dropped : JitterBuffer → JitterBuffer × ℕ
take_dropped j = (record j { dropped = 0 }, j.dropped)

-- A frame that is no newer than the last one out.
unfoldable pub is_late : Option ℕ → ℕ → Bool
is_late none n = false
is_late (some last) n = not (frame_newer_or_eq n last) || n == last

-- In front of the first frame that is as new or newer; a frame that is there already stays.
unfoldable pub enqueue : CompleteFrame → List CompleteFrame → List CompleteFrame
enqueue frame frames =
    elim (position (λ (f : CompleteFrame). frame_newer_or_eq f.frame_number frame.frame_number)
      frames) [
        | none ↦ frames ++ (frame ∷ [])
        | some i ↦ elim (get_elem? frames i) [
          | none ↦ frames
          | some f ↦
              if f.frame_number == frame.frame_number then frames else insert_at frames i frame
        ]
      ]

unfoldable pub push : JitterBuffer → CompleteFrame → ℕ → JitterBuffer
unfolding is_late
push j frame now_us =
    if is_late j.last_popped frame.frame_number
    then record j { dropped = add32 j.dropped 1 }
    else record j {
      base_us =
          some (unwrap_or j.base_us (add64 (sub64 now_us frame.timestamp_us) quality_delay_us));
      frames = enqueue frame j.frames;
    }

unfoldable pub is_key_at : List CompleteFrame → ℕ → Bool
is_key_at frames i = elim (get_elem? frames i) [ none ↦ false | some f ↦ f.keyframe ]

-- The newest keyframe among `frames[0..=idx]`.
unfoldable pub newest_keyframe : List CompleteFrame → ℕ → Option ℕ
newest_keyframe frames zero = if is_key_at frames zero then some zero else none
newest_keyframe frames (suc idx) =
    let rest = newest_keyframe frames idx in
    if is_key_at frames (suc idx) then some (suc idx) else rest

unfoldable pub give_up_on_gop : JitterBuffer → JitterBuffer
give_up_on_gop j = record j {
  frames = [];
  dropped = add32 j.dropped (length j.frames % 2 ^ 32);
  need_keyframe = true;
}

-- `take`: pops `frames[idx]` and drops what is before it. `none` is the panic of `unwrap`.
unfoldable pub take_frame : JitterBuffer → ℕ → Option (JitterBuffer × CompleteFrame)
take_frame j idx = elim (drop idx j.frames) [
  | [] ↦ none
  | f ∷ rest ↦ some (
    record j {
      frames = rest;
      dropped = add32 j.dropped idx;
      last_popped = some f.frame_number;
      gap_since = none;
    },
    f,
  )
]

unfoldable pub trim_loop : List CompleteFrame → ℕ → List CompleteFrame × ℕ
trim_loop [] dropped = ([], dropped)
trim_loop (f ∷ rest) dropped =
    let more = trim_loop rest (add32 dropped 1) in
    if ltb wait_max_depth (length (f ∷ rest)) then more else (f ∷ rest, dropped)

unfoldable pub trim_waiting : JitterBuffer → JitterBuffer
trim_waiting j =
    let (frames, dropped) = trim_loop j.frames j.dropped in
    record j { frames = frames; dropped = dropped }

-- `Some(self.take(idx))`
abbrev pub taken :
    Option (JitterBuffer × CompleteFrame) → Option (JitterBuffer × Option CompleteFrame)
taken none = none
taken (some (j, f)) = some (j, some f)

-- With a keyframe needed.
unfoldable pub pop_keyframe : JitterBuffer → Option (JitterBuffer × Option CompleteFrame)
unfolding newest_keyframe
pop_keyframe j = elim (newest_keyframe j.frames (length j.frames - 1)) [
  | some i ↦ taken (take_frame (record j { need_keyframe = false }) i)
  | none ↦ some (trim_waiting j, none)
]

-- Behind a gap: jump to a keyframe, or wait for the repair, or give up.
unfoldable pub pop_gap : JitterBuffer → ℕ → Option (JitterBuffer × Option CompleteFrame)
pop_gap j now_us = elim (newest_keyframe j.frames (length j.frames - 1)) [
  | some k ↦ taken (take_frame j k)
  | none ↦
      (let since = unwrap_or j.gap_since now_us in
        let j' : JitterBuffer = record j { gap_since = some since } in
        if ltb gap_wait_us (now_us - since)
        then some (give_up_on_gop j', none)
        else some (trim_waiting j', none))
]

unfoldable pub pop_game : JitterBuffer → Option (JitterBuffer × Option CompleteFrame)
pop_game j = elim (newest_keyframe j.frames (length j.frames - 1)) [
  | some k ↦ taken (take_frame j k)
  | none ↦
      if ltb game_max_depth (length j.frames)
      then some (give_up_on_gop j, none)
      else taken (take_frame j 0)
]

unfoldable pub due_at : ℕ → CompleteFrame → ℕ
due_at base f = add64 f.timestamp_us base

-- How many frames behind the head are due as well: the `while` loop's `last_due`.
unfoldable pub count_due : ℕ → ℕ → List CompleteFrame → ℕ
count_due base now_us [] = 0
count_due base now_us (f ∷ fs) =
    if leb_i64 (due_at base f) now_us then suc (count_due base now_us fs) else 0

-- The head is due: it goes out, unless it is so late that a keyframe behind it may.
unfoldable pub pop_due : JitterBuffer → ℕ → ℕ → ℕ → Option (JitterBuffer × Option CompleteFrame)
pop_due j now_us last_due lateness =
    if ltb 0 last_due && ltb_i64 j.interval_us lateness
    then elim (newest_keyframe j.frames last_due) [
      | some k ↦ taken (take_frame j k)
      | none ↦
          if ltb_i64 quality_max_late_us lateness
          then some (give_up_on_gop j, none)
          else taken (take_frame j 0)
    ]
    else taken (take_frame j 0)

-- `none` is the panic of `expect("base set on push")`.
unfoldable pub pop_quality :
    JitterBuffer
    → CompleteFrame
    → List CompleteFrame
    → ℕ
    → Option (JitterBuffer × Option CompleteFrame)
pop_quality j head rest now_us = elim j.base_us [
  | none ↦ none
  | some base ↦
      if ltb_i64 now_us (due_at base head)
      then some (j, none)
      else pop_due j now_us (count_due base now_us rest) (sub64 now_us (due_at base head))
]

unfoldable pub is_gap : Option ℕ → CompleteFrame → Bool
is_gap none head = false
is_gap (some last) head = not head.keyframe && not (head.frame_number == add32 last 1)

unfoldable pub pop_mode :
    Mode
    → JitterBuffer
    → CompleteFrame
    → List CompleteFrame
    → ℕ
    → Option (JitterBuffer × Option CompleteFrame)
pop_mode game j head rest now_us = pop_game j
pop_mode quality j head rest now_us = pop_quality j head rest now_us

unfoldable pub pop : JitterBuffer → ℕ → Option (JitterBuffer × Option CompleteFrame)
pop j now_us = elim j.frames [
  | [] ↦ some (j, none)
  | head ∷ rest ↦
      if j.need_keyframe
      then pop_keyframe j
      else if is_gap j.last_popped head
      then pop_gap j now_us
      else pop_mode j.mode j head rest now_us
]
