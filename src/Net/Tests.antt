-- ===== src/Net/Tests.antt =====
-- The buffer's theorems at concrete inputs.
use castr.Base.{◌≡◌, refl, arith, true, false, none, some, List, [], ◌∷◌}
use castr.Base.Maps
use castr.Base.Chunks.{chunks, chunks_loop}
use castr.Base.Bytes.{Bytes}
use castr.Proto.Header.{encode, decode, fields, is_keyframe}
use castr.Proto.Packetize.{fragments, fragment_header, fragment_flags, budget, packetize}
use castr.Proto.Reassemble.{
  CompleteFrame, Nack, Partial, Reassembler, new, is_stale, new_partial, is_refused, push_entry,
  push_fragment, push, deliver, missing_from,
}
use castr.Proto.Reassemble.Delivery.{Below}
use castr.Proto.RoundTrip.{schedule}
use castr.Net.Retransmit.{
  Sent, RetransmitBuffer, prune_frames, prune, find_frame, select_fragments, lookup,
}
use castr.Net.Retransmit.Laws.{IsValid, lookup_found}
use castr.Net.Repair.{at_time, deliver-lookup}

abbrev sent : List Bytes
sent = fragments 0 true 1000 5 2 0 ((7 ∷ 8 ∷ []) ∷ (9 ∷ []) ∷ [])

abbrev sent_frame : Sent
sent_frame = record { frame_number = 5; keyframe = true; sent_at_us = 5; fragments = sent }

abbrev buffer : RetransmitBuffer
buffer = record { max_age_us = 300000; frames = sent_frame ∷ [] }

-- The second fragment has come, the first has not.
abbrev half : Partial
half = record {
  stream = 0;
  timestamp_us = 1000;
  keyframe = true;
  first_seen_us = 10;
  parts = none ∷ some (9 ∷ []) ∷ [];
  received = 1;
}

abbrev waiting : Reassembler
waiting = record { max_age_us = 1000; partial = (5, half) ∷ []; newest_completed = none; lost = 0 }

abbrev first_nack : Nack
first_nack = record { frame_number = 5; missing = 0 ∷ [] }

abbrev whole_frame : CompleteFrame
whole_frame = record {
  stream = 0;
  frame_number = 5;
  timestamp_us = 1000;
  keyframe = true;
  bytes = 7 ∷ 8 ∷ 9 ∷ [];
}

packetized :
    packetize (record { next_frame = 5 }) 0 true 1000 (7 ∷ 8 ∷ 9 ∷ []) 22
    ≡ some (record { next_frame = 6 }, sent)
unfolding packetize budget chunks chunks_loop
packetized = refl

new_fresh : is_stale (new 1000) 5 ≡ false
unfolding is_stale new
new_fresh = refl

new_unknown : Maps.lookup 5 (new 1000).partial ≡ none
unfolding Maps.lookup new
new_unknown = refl

half-Below : Below 2 ((1, 10) ∷ [])
half-Below = (omega arith, tt)

half_delivered : deliver (new 1000) (schedule sent ((1, 10) ∷ [])) ≡ some (waiting, [])
unfolding deliver push push_fragment push_entry is_stale new_partial is_refused new fragments
    fragment_header fragment_flags encode decode fields is_keyframe Maps.lookup Maps.insert
half_delivered = refl

half_waiting : Maps.lookup 5 waiting.partial ≡ some half
unfolding Maps.lookup
half_waiting = refl

still_held : find_frame 5 (prune buffer 40).frames ≡ some sent_frame
unfolding find_frame prune prune_frames
still_held = refl

deliver-lookup_example :
    (r' : Reassembler) × (deliver waiting (
        at_time 60
          (lookup buffer (record { frame_number = 5; missing = missing_from 0 half.parts }) 40).1)
      ≡ some (r', whole_frame ∷ []))
unfolding fragments
deliver-lookup_example =
    deliver-lookup (record { next_frame = 5 }) 0 true 1000 7 (8 ∷ 9 ∷ []) 22
      (record { next_frame = 6 }) sent (new 1000) waiting ((1, 10) ∷ []) half buffer sent_frame 40
      60 packetized (omega arith) (omega arith) (omega arith) new_fresh new_unknown half-Below
      half_delivered half_waiting still_held refl

buffer-IsValid : IsValid 5 buffer
buffer-IsValid = ground arith

lookup_found_example : (lookup buffer first_nack 40).1 ≡ select_fragments sent (0 ∷ [])
lookup_found_example = lookup_found buffer first_nack 40 sent_frame still_held
