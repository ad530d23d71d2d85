-- ===== src/Proto/Reassemble.antt =====
-- crates/castr-proto/src/reassemble.rs: datagrams into frames, in any order, with repair requests.
pub mod Laws
pub mod Delivery
pub mod Repair
use castr.Base.{
  ℕ, ◌+◌, ◌-◌, ◌%◌, max, Bool, true, false, not, ◌&&◌, ◌||◌, Option, none, some, List, [], ◌∷◌,
  ◌++◌, ltb, ◌==◌, if◌then◌else◌, is_some, unwrap_or, length, get_elem?, set, replicate, Result, ok,
  err,
}
use castr.Base.Words.{sub32, add64}
use castr.Base.Maps.{lookup, insert, remove}
use castr.Base.Bytes.{Bytes}
use castr.Proto.Header.{DatagramHeader, HeaderError, decode, is_keyframe}

abbrev pub decode_margin_us : ℕ
decode_margin_us = 10000

pub record CompleteFrame : Type 0 where
  pub stream : ℕ
  pub frame_number : ℕ
  pub timestamp_us : ℕ
  pub keyframe : Bool
  pub bytes : Bytes

pub record Nack : Type 0 where
  pub frame_number : ℕ
  pub missing : List ℕ

pub record Partial : Type 0 where
  pub stream : ℕ
  pub timestamp_us : ℕ
  pub keyframe : Bool
  pub first_seen_us : ℕ
  pub parts : List (Option Bytes)
  pub received : ℕ

pub record Reassembler : Type 0 where
  pub max_age_us : ℕ
  pub partial : List (ℕ × Partial)
  pub newest_completed : Option ℕ
  pub lost : ℕ

-- `u32::MAX / 2` is 2147483647.
unfoldable pub frame_newer_or_eq : ℕ → ℕ → Bool
frame_newer_or_eq a b = ltb (sub32 a b) 2147483647

unfoldable pub new : ℕ → Reassembler
new max_age_us = record { max_age_us = max_age_us; partial = []; newest_completed = none; lost = 0 }

unfoldable pub pending : Reassembler → ℕ
pending r = length r.partial

-- `std::mem::take` of the counter.
unfoldable pub fragments_lost : Reassembler → Reassembler × ℕ
fragments_lost r = (record r { lost = 0 }, r.lost)

-- The early return of `push`: a frame at or behind the watermark that is not being assembled.
unfoldable pub is_stale : Reassembler → ℕ → Bool
is_stale r frame_number = elim r.newest_completed [
  | none ↦ false
  | some n ↦
      (not (frame_newer_or_eq frame_number n) || frame_number == n)
      && not (is_some (lookup frame_number r.partial))
]

-- What `or_insert_with` puts there for a frame that is seen for the first time.
unfoldable pub new_partial : DatagramHeader → ℕ → Partial
new_partial h now_us = record {
  stream = h.stream;
  timestamp_us = h.timestamp_us;
  keyframe = is_keyframe h;
  first_seen_us = now_us;
  parts = replicate (max h.fragment_count 1) none;
  received = 0;
}

-- `idx >= entry.parts.len() || entry.parts[idx].is_some()`
unfoldable pub is_refused : List (Option Bytes) → ℕ → Bool
is_refused parts idx = elim (get_elem? parts idx) [ none ↦ true | some part ↦ is_some part ]

-- The parts one behind the other. `none` is the panic of `p.unwrap()`.
unfoldable pub concat_parts : List (Option Bytes) → Option Bytes
concat_parts [] = some []
concat_parts (none ∷ ps) = none
concat_parts (some p ∷ ps) = elim (concat_parts ps) [ none ↦ none | some rest ↦ some (p ++ rest) ]

unfoldable pub advance : Option ℕ → ℕ → Option ℕ
advance none frame_number = some frame_number
advance (some n) frame_number =
    if frame_newer_or_eq frame_number n then some frame_number else some n

-- The end of `push`, for a frame whose last part has come.
unfoldable pub complete : Reassembler → ℕ → Partial → Option (Reassembler × Option CompleteFrame)
complete r frame_number done = elim (concat_parts done.parts) [
  | none ↦ none
  | some bytes ↦ some (
    record r {
      partial = remove frame_number r.partial;
      newest_completed = advance r.newest_completed frame_number;
    },
    some (record {
      stream = done.stream;
      frame_number = frame_number;
      timestamp_us = done.timestamp_us;
      keyframe = done.keyframe;
      bytes = bytes;
    }),
  )
]

-- `push` from the lookup of the frame's entry on. `received` counts parts that are in memory, so
-- that it cannot overflow. `none` is a panic.
unfoldable pub push_entry :
    Reassembler → Partial → ℕ → ℕ → Bytes → Option (Reassembler × Option CompleteFrame)
push_entry r entry frame_number idx payload =
    let stored = λ (p : Partial). record r { partial = insert frame_number p r.partial } in
    if is_refused entry.parts idx
    then some (stored entry, none)
    else (let entry' : Partial = record entry {
      parts = set entry.parts idx (some payload);
      received = entry.received + 1;
    } in
        if ltb entry'.received (length entry'.parts)
        then some (stored entry', none)
        else complete (stored entry') frame_number entry')

-- `push` behind the decoding of the header.
unfoldable pub push_fragment :
    Reassembler → DatagramHeader → Bytes → ℕ → Option (Reassembler × Option CompleteFrame)
push_fragment r h payload now_us =
    if is_stale r h.frame_number
    then some (r, none)
    else push_entry r (unwrap_or (lookup h.frame_number r.partial) (new_partial h now_us))
        h.frame_number h.fragment_index payload

unfoldable pub push :
    Reassembler → Bytes → ℕ → Option (Reassembler × Result (Option CompleteFrame) HeaderError)
push r datagram now_us = elim (decode datagram) [
  | err e ↦ some (r, err e)
  | ok (h, payload) ↦ elim (push_fragment r h payload now_us) [
    | none ↦ none
    | some (r', frame) ↦ some (r', ok frame)
  ]
]

abbrev frames_of : Result (Option CompleteFrame) HeaderError → List CompleteFrame
frames_of (err e) = []
frames_of (ok none) = []
frames_of (ok (some f)) = f ∷ []

-- A receiver's loop: every datagram in the order and at the time of its arrival, and the frames
-- that come out. `none` is a panic.
unfoldable pub deliver : Reassembler → List (Bytes × ℕ) → Option (Reassembler × List CompleteFrame)
deliver r [] = some (r, [])
deliver r ((datagram, now_us) ∷ rest) = elim (push r datagram now_us) [
  | none ↦ none
  | some (r', answer) ↦ elim (deliver r' rest) [
    | none ↦ none
    | some (r'', frames) ↦ some (r'', frames_of answer ++ frames)
  ]
]

-- The indices of the parts that have not come, counted from `i`.
unfoldable pub missing_from : ℕ → List (Option Bytes) → List ℕ
missing_from i [] = []
missing_from i (none ∷ ps) = (i % 65536) ∷ missing_from (i + 1) ps
missing_from i (some p ∷ ps) = missing_from (i + 1) ps

unfoldable pub is_expired : ℕ → ℕ → Partial → Bool
is_expired max_age_us now_us p = ltb max_age_us (now_us - p.first_seen_us)

unfoldable pub is_in_time : ℕ → ℕ → ℕ → Partial → Bool
is_in_time now_us rtt_us repair_window_us p =
    ltb (add64 (add64 now_us rtt_us) decode_margin_us) (add64 p.first_seen_us repair_window_us)

-- What the loop of `tick` gathers.
pub record Sweep : Type 0 where
  pub nacks : List Nack
  pub expired : List ℕ
  pub lost : ℕ

-- The loop's body, for one entry.
unfoldable pub sweep_entry : ℕ → ℕ → ℕ → ℕ → ℕ → Partial → Sweep → Sweep
sweep_entry max_age_us now_us rtt_us repair_window_us fnum p s =
    if is_expired max_age_us now_us p
    then record s {
      expired = s.expired ++ (fnum ∷ []);
      lost = add64 s.lost (length p.parts - p.received);
    }
    else if not p.keyframe && not (is_in_time now_us rtt_us repair_window_us p)
    then s
    else record s {
      nacks = s.nacks ++ (record { frame_number = fnum; missing = missing_from 0 p.parts } ∷ []);
    }

-- The loop, over the entries that it has not reached.
unfoldable pub sweep : ℕ → ℕ → ℕ → ℕ → List (ℕ × Partial) → Sweep → Sweep
sweep max_age_us now_us rtt_us repair_window_us [] s = s
sweep max_age_us now_us rtt_us repair_window_us ((fnum, p) ∷ rest) s =
    sweep max_age_us now_us rtt_us repair_window_us rest
      (sweep_entry max_age_us now_us rtt_us repair_window_us fnum p s)

unfoldable pub remove_all : List ℕ → List (ℕ × Partial) → List (ℕ × Partial)
remove_all [] m = m
remove_all (f ∷ fs) m = remove_all fs (remove f m)

unfoldable pub tick : Reassembler → ℕ → ℕ → ℕ → Reassembler × List Nack
tick r now_us rtt_us repair_window_us =
    let s =
      sweep r.max_age_us now_us rtt_us repair_window_us r.partial
        (record { nacks = []; expired = []; lost = r.lost }) in
    (record r { partial = remove_all s.expired r.partial; lost = s.lost }, s.nacks)
