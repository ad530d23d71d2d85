-- ===== src/Proto/Tests.antt =====
-- Runs of the protocol, and its theorems at concrete inputs.
use castr.Base.{
  ℕ, zero, suc, ◌-◌, ◌*◌, ◌<◌, ◌≤◌, ◌≡◌, ◌⊎◌, ◌↔◌, inl, inr, refl, arith, Bool, true, false, none,
  some, List, [], ◌∷◌, ◌++◌, Result, ok, err, any, Returns, length, get_elem?, set, ◌==◌, take,
}
use castr.Base.Chunks.{chunks, chunks_loop}
use castr.Base.Maps.{lookup}
use castr.Base.Bytes.{Bytes}
use castr.Proto.Header.{DatagramHeader, IsValid, encode, decode, fields}
use castr.Proto.Header.Codec.{decode-encode, encode-decode}
use castr.Proto.Packetize.Sizes.{Carry}
use castr.Proto.Packetize.{Packetizer, fragments, budget, packetize}
use castr.Proto.Reassemble.{
  CompleteFrame, Partial, Reassembler, new, is_stale, push, tick, deliver, missing_from,
}
use castr.Proto.Reassemble.Delivery.{Occurs, Below}
use castr.Proto.Reassemble.Laws
use castr.Proto.Reassemble.Laws.{push-IsValid, new-IsValid}
use castr.Proto.Reassemble.Repair.{asked, Ticked, missing_from_lem, tick_lem}
use castr.Proto.RoundTrip.{schedule, deliver-packetize, packetize-fits}
use castr.Proto.Control.{
  h264, Capabilities, hello, protocol_version, encode_len_prefixed, decode_len_prefixed,
}
use castr.Proto.Control.Framing.{decode_len_prefixed-encode_len_prefixed, decode_len_prefixed_cut}
use castr.Proto.Session.{
  ReceiverSession, disconnected, streaming, closed, send, resumed, on_message, ack, token_ttl_us,
}
use castr.Proto.Session
use castr.Proto.Session.Laws.{
  Event, message, step, run, IsStreaming, Greeted, on_message-resume, run-IsStreaming,
}

abbrev sender : Packetizer
sender = record { next_frame = 5 }

-- Three bytes in datagrams of 22: two fragments.
abbrev sent : List Bytes
sent = fragments 0 true 1000 5 2 0 ((7 ∷ 8 ∷ []) ∷ (9 ∷ []) ∷ [])

abbrev arrived : List (ℕ × ℕ)
arrived = (1, 10) ∷ (0, 20) ∷ (1, 30) ∷ []

abbrev received_frame : CompleteFrame
received_frame = record {
  stream = 0;
  frame_number = 5;
  timestamp_us = 1000;
  keyframe = true;
  bytes = 7 ∷ 8 ∷ 9 ∷ [];
}

sent_all : (j : ℕ) → j < 2 → Occurs j arrived
sent_all zero h = inr (inl refl)
sent_all (suc zero) h = inl refl
sent_all (suc (suc j)) h = absurd (omega arith)

packetized :
    packetize sender 0 true 1000 (7 ∷ 8 ∷ 9 ∷ []) 22 ≡ some (record { next_frame = 6 }, sent)
unfolding packetize budget chunks chunks_loop
packetized = refl

new_fresh : is_stale (new 1000) 5 ≡ false
unfolding is_stale new
new_fresh = refl

new_unknown : lookup 5 (new 1000).partial ≡ none
unfolding lookup new
new_unknown = refl

arrived-Below : Below (length sent) arrived
unfolding fragments
arrived-Below = (omega arith, (omega arith, (omega arith, tt)))

deliver-packetize_example :
    (r' : Reassembler) × (deliver (new 1000) (schedule sent arrived)
      ≡ some (r', received_frame ∷ []))
unfolding fragments
deliver-packetize_example =
    deliver-packetize sender 0 true 1000 7 (8 ∷ 9 ∷ []) 22 (record { next_frame = 6 }) sent
      (new 1000) arrived packetized (omega arith) (omega arith) (omega arith) new_fresh new_unknown
      arrived-Below sent_all

packetize-fits_example :
    let out = packetize sender 0 true 1000 (7 ∷ 8 ∷ 9 ∷ []) 22 in
    ((65535 * 2 < 3) × (out ≡ none))
    ⊎ ((3 ≤ 65535 * 2)
        × ((p' : Packetizer) × (ds : List Bytes) × (out ≡ some (p', ds))
            × (p'.next_frame ≡ 6)
            × Carry 3 22 ds))
packetize-fits_example = packetize-fits sender 0 true 1000 (7 ∷ 8 ∷ 9 ∷ []) 22 (omega arith)

abbrev some_header : DatagramHeader
some_header = record {
  stream = 1;
  flags = 3;
  fragment_index = 4;
  fragment_count = 700;
  frame_number = 70000;
  timestamp_us = 5000000000;
}

some_header-IsValid : IsValid some_header
some_header-IsValid = record {
  known = omega arith;
  flags = omega arith;
  index = omega arith;
  count = omega arith;
  frame = omega arith;
  time = omega arith;
}

decode-encode_example : decode (encode some_header ++ (42 ∷ [])) ≡ ok (some_header, 42 ∷ [])
decode-encode_example = decode-encode some_header (42 ∷ []) some_header-IsValid

-- The datagram of a header, with something in the reserved bytes.
abbrev some_datagram : Bytes
some_datagram =
    0 ∷ 1 ∷ 2 ∷ 0 ∷ 3 ∷ 0 ∷ 9 ∷ 9 ∷ 5 ∷ 0 ∷ 0 ∷ 0 ∷ 7 ∷ 0 ∷ 0 ∷ 0 ∷ 0 ∷ 0 ∷ 0 ∷ 0 ∷ 42 ∷ []

abbrev read_header : DatagramHeader
read_header = record {
  stream = 0;
  flags = 1;
  fragment_index = 2;
  fragment_count = 3;
  frame_number = 5;
  timestamp_us = 7;
}

some_datagram_read : decode some_datagram ≡ ok (read_header, 42 ∷ [])
unfolding decode fields
some_datagram_read = refl

encode-decode_example :
    IsValid read_header × (encode read_header ++ (42 ∷ []) ≡ set (set some_datagram 6 0) 7 0)
encode-decode_example =
    encode-decode some_datagram read_header (42 ∷ []) (ground arith) some_datagram_read

push-IsValid_example : Returns (λ x. Laws.IsValid x.0) (push (new 1000) some_datagram 10)
push-IsValid_example = push-IsValid (new 1000) some_datagram 10 (new-IsValid 1000)

-- Half of a frame of two parts.
abbrev half : Partial
half = record {
  stream = 0;
  timestamp_us = 1000;
  keyframe = true;
  first_seen_us = 10;
  parts = none ∷ some (9 ∷ []) ∷ [];
  received = 1;
}

abbrev waiting : Reassembler
waiting = record { max_age_us = 1000; partial = (5, half) ∷ []; newest_completed = none; lost = 0 }

waiting-IsValid : Laws.IsValid waiting
waiting-IsValid = ground arith

tick_lem_example :
    let (r', nacks) = tick waiting 100 20 150000 in
    ((lookup 5 waiting.partial ≡ none) × (asked 5 nacks ≡ none) × (lookup 5 r'.partial ≡ none))
    ⊎ ((p : Partial) × (lookup 5 waiting.partial ≡ some p)
        × Ticked 1000 100 20 150000 p (asked 5 nacks) (lookup 5 r'.partial))
tick_lem_example = tick_lem waiting 100 20 150000 5 waiting-IsValid

missing_from_lem_example :
    (any (λ n. n == 0) (missing_from 0 half.parts) ≡ true) ↔ (get_elem? half.parts 0 ≡ some none)
missing_from_lem_example = missing_from_lem 0 0 0 half.parts (omega arith) (omega arith)

-- A codec of numbers below 256, as one byte each.
abbrev to_byte : ℕ → Bytes
to_byte n = n ∷ []

abbrev from_byte : Bytes → Result ℕ Bool
from_byte [] = err false
from_byte (b ∷ rest) = ok b

decode_len_prefixed_example :
    decode_len_prefixed to_byte from_byte (encode_len_prefixed to_byte from_byte 77 ++ (1 ∷ []))
    ≡ ok (some (77, 5))
decode_len_prefixed_example =
    decode_len_prefixed-encode_len_prefixed to_byte from_byte 77 (1 ∷ []) (omega arith) refl

decode_len_prefixed_cut_example :
    decode_len_prefixed to_byte from_byte (take 3 (encode_len_prefixed to_byte from_byte 77))
    ≡ ok none
decode_len_prefixed_cut_example =
    decode_len_prefixed_cut to_byte from_byte 77 3 (omega arith) (omega arith)

abbrev some_caps : Capabilities
some_caps = record {
  max_width = 1920;
  max_height = 1080;
  max_fps = 30;
  max_bitrate_bps = 20000000;
  codecs = h264 ∷ [];
  audio = true;
}

abbrev lost_session : ReceiverSession
lost_session = record {
  name = 112 ∷ 105 ∷ [];
  caps = some_caps;
  token = 1 ∷ 2 ∷ [];
  state = disconnected 1000;
  params = none;
}

on_message-resume_example :
    ((protocol_version ≡ protocol_version)
      × (some (1 ∷ 2 ∷ []) ≡ some lost_session.token)
      × (2000 - 1000 ≤ token_ttl_us)
      × (on_message lost_session (hello protocol_version [] (some (1 ∷ 2 ∷ []))) 2000 ≡ (
        record lost_session { state = streaming none },
        send (ack lost_session) ∷ resumed ∷ [],
      )))
    ⊎ ((¬ (
          (protocol_version ≡ protocol_version)
          × (some (1 ∷ 2 ∷ []) ≡ some lost_session.token)
          × (2000 - 1000 ≤ token_ttl_us)))
        × ((on_message lost_session (hello protocol_version [] (some (1 ∷ 2 ∷ []))) 2000).0.state
            ≡ closed))
on_message-resume_example =
    on_message-resume lost_session 1000 2000 protocol_version [] (some (1 ∷ 2 ∷ [])) refl

abbrev greeting : List Event
greeting = message (hello protocol_version [] none) 5 ∷ []

greeting_streams : IsStreaming (run (Session.new [] some_caps []) greeting).state
unfolding Session.new run step on_message
greeting_streams = tt

run-IsStreaming_example : Greeted greeting
run-IsStreaming_example = run-IsStreaming [] some_caps [] greeting greeting_streams
