-- ===== src/Miracast/Handshake.antt =====
-- Runs of the negotiation, of the session and of the transport stream, and their theorems at
-- concrete inputs.
use castr.Base.{
  ℕ, zero, suc, ◌+◌, ◌-◌, ◌≤◌, ◌≡◌, ◌↔◌, refl, arith, true, none, some, List, [], ◌∷◌, ◌++◌, ok,
  length, ltb, if◌then◌else◌, any, is_some,
}
use castr.Base.Bytes.{Bytes, bytes_eq}
use castr.Base.Text.{ascii, decimal, decimal_loop}
use castr.Base.Strings.{
  is_utf8, is_utf8_from, eq_ignore_ascii_case, to_lower, trim, trim_start, trim_start_loop,
  trim_end, space_len,
}
use castr.Proto.Control.{quality}
use castr.Miracast.TsMux
use castr.Miracast.TsMux.{mux_all}
use castr.Miracast.TsMux.Video.{ready}
use castr.Miracast.TsMux.RoundTrip.{units_of, feed-mux_all}
use castr.Miracast.Ts
use castr.Miracast.Ts.{feed}
use castr.Miracast.Wfd.{Capabilities, only_720p30, lpcm_48k_stereo}
use castr.Miracast.Caps.{VideoMode, video, SinkCaps}
use castr.Miracast.Caps.Choice.{our_modes, choose_selection, all_modes}
use castr.Miracast.Caps.Masks.{In}
use castr.Miracast.Caps.Selection.{IsChoice, choose_selection-IsChoice}
use castr.Miracast.Caps.Preference.{IsPreferred, Fits, our_modes_lem}
use castr.Miracast.Rtsp.{
  Message, status_line, parse, format, response, reason_for, find_header, content_headers,
  format_start,
}
use castr.Miracast.Rtsp.RoundTrip.{
  IsPrintable, all_headers, is_plain, is_plain-All, is_word, is_word-All, word-IsHeader,
  parse-format,
}
use castr.Miracast.Rtsp.Negotiation
use castr.Miracast.Rtsp.Negotiation.{
  Negotiation, NegState, Action, send, is_done, keepalive_timeout,
}
use castr.Miracast.Rtsp.Negotiation.Messages.{on_message_at}
use castr.Miracast.Rtsp.Negotiation.Pace
use castr.Miracast.Rtsp.Negotiation.Pace.{ask_idr, idr_times, IsSpaced, idr_times-IsSpaced}
use castr.Miracast.Rtsp.Negotiation.Silence.{tick_all, teardowns, tick_all-teardowns}
use castr.Miracast.Source
use castr.Miracast.Source.{SourceConfig, SourceSession, SourceState, start}
use castr.Miracast.Source.Steps
use castr.Miracast.Source.Order
use castr.Miracast.Source.Order.{run, asks, run-asks}
use castr.Miracast.Source.Once.{IsNumbered, on_message_at-twice}
use castr.Miracast.Source.Numbers.{answer-IsNumbered}
use castr.Miracast.Select.{Candidate, match_by_name}
use castr.Miracast.Select.Matching.{Means, match_by_name-Means}
use castr.Miracast.Pairing
use castr.Miracast.Pairing.{is_valid, pin_from}
use castr.Miracast.Pairing.Digits.{is_valid-pin_from}
use castr.Miracast.Pairing.Screen
use castr.Miracast.Pairing.Screen.{IsHonest, run-IsHonest}
use castr.Miracast.Sink
use castr.Miracast.Sink.{Session, rtsp_loop, on_rtsp_bytes_at}
use castr.Miracast.Sink.Messages.{rtsp_loop-length}
use castr.Miracast.Sink.Stream.{on_each, stream_of, on_rtsp_bytes_at-stream}

abbrev some_caps : Capabilities
some_caps = record {
  video = only_720p30;
  audio = lpcm_48k_stereo;
  ports = record { rtp_port = 5000 };
  max_bitrate_kbps = 8000;
  latency_management = true;
  format_change = true;
}

abbrev some_config : SourceConfig
some_config = record {
  mode = quality;
  rtp_port = 5000;
  session_id = ascii "1234567890";
  ceiling_mbps = none;
  presentation_url = ascii "rtsp://localhost/wfd1.0/streamid=0";
}

-- The messages of one end, all delivered to the other.
to_sink : Negotiation → List Action → Negotiation × List Action
to_sink n [] = (n, [])
to_sink n (send m ∷ out) =
    let (n1, a) = on_message_at n m 1 in let (n2, b) = to_sink n1 out in (n2, a ++ b)
to_sink n (_ ∷ out) = to_sink n out

to_source : SourceSession → List Action → SourceSession × List Action
to_source s [] = (s, [])
to_source s (send m ∷ out) =
    let (s1, a) = Steps.on_message_at s m 1 in let (s2, b) = to_source s1 out in (s2, a ++ b)
to_source s (_ ∷ out) = to_source s out

exchange : ℕ → Negotiation → SourceSession → List Action → NegState × SourceState
exchange zero n s out = (n.state, s.state)
exchange (suc rounds) n s out =
    let (n1, answers) = to_sink n out in
    let (s1, more) = to_source s answers in exchange rounds n1 s1 more

both_play : NegState × SourceState
both_play =
    let (s, out) = start (Source.new some_config) in
    exchange 8 (Negotiation.new some_caps (ascii "7")) s out

-- The whole exchange M1 to M7, from one end to the other: both ends play.
both_play_lem : both_play ≡ (Negotiation.playing, Source.playing)
unfolding both_play exchange to_sink to_source castr.Base.Strings.is_utf8_from
    castr.Base.Strings.is_utf8 castr.Base.Strings.space_len castr.Base.Strings.trim_start_loop
    castr.Base.Strings.trim_start castr.Base.Strings.trim_end castr.Base.Strings.trim
    castr.Base.Strings.lines castr.Base.Strings.split_whitespace castr.Base.Strings.to_lower
    castr.Base.Strings.eq_ignore_ascii_case castr.Base.Strings.digit_of
    castr.Base.Strings.digits_value castr.Base.Strings.parse_unsigned castr.Base.Strings.hex_upper
    castr.Base.Text.decimal_loop castr.Base.Text.decimal castr.Base.Maps.lookup
    castr.Base.Maps.insert castr.Base.Maps.remove castr.Base.Bytes.bytes_eq
    castr.Miracast.Wfd.video_line castr.Miracast.Wfd.capabilities_body
    castr.Miracast.Wfd.parameter_of castr.Miracast.Wfd.parse_parameter_body
    castr.Miracast.Wfd.kind_of castr.Miracast.Wfd.parse_device_info
    castr.Miracast.Wfd.parse_max_bitrate_kbps castr.Miracast.Caps.find_param
    castr.Miracast.Caps.parse castr.Miracast.Caps.Tables.cea_mode
    castr.Miracast.Caps.Tables.vesa_mode castr.Miracast.Caps.Tables.hh_mode
    castr.Miracast.Caps.Tables.codec_formats castr.Miracast.Caps.Tables.mode_at
    castr.Miracast.Caps.Tables.mask_modes castr.Miracast.Caps.Tables.table_modes
    castr.Miracast.Caps.Tables.sink_modes castr.Miracast.Caps.Tables.mode_bit
    castr.Miracast.Caps.Choice.macroblock_rate castr.Miracast.Caps.Choice.required_level
    castr.Miracast.Caps.Choice.level_rank castr.Miracast.Caps.Choice.needs_mbps
    castr.Miracast.Caps.Choice.goes_before castr.Miracast.Caps.Choice.insert_mode
    castr.Miracast.Caps.Choice.sort_modes castr.Miracast.Caps.Choice.within_ceiling
    castr.Miracast.Caps.Choice.our_modes castr.Miracast.Caps.Choice.profile_of
    castr.Miracast.Caps.Choice.find_mode castr.Miracast.Caps.Choice.can_carry
    castr.Miracast.Caps.Choice.selection_of castr.Miracast.Caps.Choice.selection_in
    castr.Miracast.Caps.Choice.select_codec castr.Miracast.Caps.Choice.select_level
    castr.Miracast.Caps.Choice.select_mode castr.Miracast.Caps.Choice.choose_selection
    castr.Miracast.Caps.Choice.choose castr.Miracast.Rtsp.find_header castr.Miracast.Rtsp.cseq
    castr.Miracast.Rtsp.format_start castr.Miracast.Rtsp.content_headers castr.Miracast.Rtsp.format
    castr.Miracast.Rtsp.find_double_crlf castr.Miracast.Rtsp.split_status
    castr.Miracast.Rtsp.parse_status_line castr.Miracast.Rtsp.parse_start_line
    castr.Miracast.Rtsp.onto_headers castr.Miracast.Rtsp.parse_headers
    castr.Miracast.Rtsp.content_length castr.Miracast.Rtsp.parse_body
    castr.Miracast.Rtsp.parse_sized castr.Miracast.Rtsp.parse_with_headers
    castr.Miracast.Rtsp.parse_with_start castr.Miracast.Rtsp.parse_head castr.Miracast.Rtsp.parse
    castr.Miracast.Rtsp.reason_for castr.Miracast.Rtsp.response castr.Miracast.Rtsp.request
    castr.Miracast.Rtsp.Negotiation.cea_mode castr.Miracast.Rtsp.Negotiation.new
    castr.Miracast.Rtsp.Negotiation.uri castr.Miracast.Rtsp.Negotiation.with_session
    castr.Miracast.Rtsp.Negotiation.Messages.single_bit
    castr.Miracast.Rtsp.Negotiation.Messages.parse_chosen_video
    castr.Miracast.Rtsp.Negotiation.Messages.read_param
    castr.Miracast.Rtsp.Negotiation.Messages.read_params
    castr.Miracast.Rtsp.Negotiation.Messages.on_set_parameter
    castr.Miracast.Rtsp.Negotiation.Messages.on_request
    castr.Miracast.Rtsp.Negotiation.Messages.on_response
    castr.Miracast.Rtsp.Negotiation.Messages.by_start
    castr.Miracast.Rtsp.Negotiation.Messages.on_message_at castr.Miracast.Source.new
    castr.Miracast.Source.rtp_port_of castr.Miracast.Source.max_bitrate_kbps
    castr.Miracast.Source.video_bitrate_kbps castr.Miracast.Source.expect
    castr.Miracast.Source.start castr.Miracast.Source.response_with_session
    castr.Miracast.Source.ask_capabilities castr.Miracast.Source.Requests.transport_client_port
    castr.Miracast.Source.Requests.on_request castr.Miracast.Source.Answers.selection_body
    castr.Miracast.Source.Answers.offer castr.Miracast.Source.Answers.on_capabilities
    castr.Miracast.Source.Answers.on_answer castr.Miracast.Source.Answers.answer_pending
    castr.Miracast.Source.Answers.on_response castr.Miracast.Source.Steps.by_start
    castr.Miracast.Source.Steps.on_message_at castr.Miracast.Source.Steps.grace_over
    castr.Miracast.Source.Steps.is_silent castr.Miracast.Source.Steps.keepalive_due
    castr.Miracast.Source.Steps.tick castr.Miracast.Source.Steps.end_session
both_play_lem = refl

abbrev answer_ok : Message
answer_ok = record {
  start = status_line 200 (ascii "OK");
  headers = (ascii "CSeq", ascii "7") ∷ [];
  body = ascii "ok";
}

answer_ok-IsPrintable : IsPrintable answer_ok
unfolding is_plain is_word is_utf8 is_utf8_from find_header eq_ignore_ascii_case to_lower bytes_eq
    content_headers decimal decimal_loop format_start
answer_ok-IsPrintable = record {
  start = (omega arith, is_plain-All (ascii "OK") refl);
  headers = (
    word-IsHeader (ascii "CSeq") (ascii "7") (is_word-All (ascii "CSeq") refl)
        (is_word-All (ascii "7") refl),
    tt,
  );
  no_length = refl;
  body = refl;
  body_size = omega arith;
  head_size = omega arith;
}

parse-format_example :
    parse (format answer_ok ++ ascii "RTSP")
    ≡ ok (some (record answer_ok { headers = all_headers answer_ok }, length (format answer_ok)))
parse-format_example = parse-format answer_ok (ascii "RTSP") answer_ok-IsPrintable

abbrev some_session : Session
some_session = Sink.new some_caps (ascii "7")

on_rtsp_bytes_at-stream_example :
    on_rtsp_bytes_at some_session (stream_of (answer_ok ∷ answer_ok ∷ [])) 5 ≡ (
      record (on_each some_session (answer_ok ∷ answer_ok ∷ []) 5).0 { rtsp_buf = [] },
      (on_each some_session (answer_ok ∷ answer_ok ∷ []) 5).1,
    )
unfolding Sink.new
on_rtsp_bytes_at-stream_example =
    on_rtsp_bytes_at-stream some_session (answer_ok ∷ answer_ok ∷ []) 5 refl
      (answer_ok-IsPrintable, (answer_ok-IsPrintable, tt))

rtsp_loop-length_example :
    rtsp_loop (3 + 4) (record some_session { rtsp_buf = ascii "OK" }) 5
    ≡ rtsp_loop 3 (record some_session { rtsp_buf = ascii "OK" }) 5
rtsp_loop-length_example =
    rtsp_loop-length 3 4 (record some_session { rtsp_buf = ascii "OK" }) 5 (omega arith)

abbrev some_calls : List Order.Call
some_calls = Order.message answer_ok 1 ∷ Order.at_tick 3000000 ∷ []

run-asks_example :
    let (s, out) = run (start (Source.new some_config)).0 some_calls in
    (asks ((start (Source.new some_config)).1 ++ out) ≤ 1)
    × (asks ((start (Source.new some_config)).1 ++ out) ≡ 1 → is_some s.m1_answered ≡ true)
run-asks_example = run-asks some_config some_calls

abbrev some_negotiation : Negotiation
some_negotiation = record (Negotiation.new some_caps (ascii "7")) { last_heard = some 0 }

abbrev idr_calls : List (Pace.Call × ℕ)
idr_calls = (ask_idr, 10) ∷ (Pace.at_tick, 20) ∷ (ask_idr, 400000) ∷ (ask_idr, 600000) ∷ []

idr_times-IsSpaced_example : IsSpaced none (idr_times some_negotiation idr_calls)
unfolding Negotiation.new
idr_times-IsSpaced_example = idr_times-IsSpaced some_negotiation idr_calls

tick_all-teardowns_example :
    let (n', out) = tick_all some_negotiation (6000000 ∷ 11000000 ∷ 12000000 ∷ []) in
    let silent =
      any (λ (now : ℕ). ltb keepalive_timeout (now - 0)) (6000000 ∷ 11000000 ∷ 12000000 ∷ []) in
    (teardowns out ≡ (if silent then 1 else 0)) × (is_done n'.state ≡ silent)
unfolding Negotiation.new
tick_all-teardowns_example =
    tick_all-teardowns some_negotiation (6000000 ∷ 11000000 ∷ 12000000 ∷ []) 0 refl refl

abbrev some_display : SinkCaps
some_display = record {
  cea = 33;
  vesa = 0;
  hh = 0;
  profile = 2;
  level = 4;
  lpcm_modes = 2;
  rtp_port = 5000;
  max_bitrate_kbps = some 8000;
  content_protection = none;
  video_formats = [];
}

choose_selection-IsChoice_example :
    IsChoice some_display all_modes (choose_selection some_display all_modes)
choose_selection-IsChoice_example = choose_selection-IsChoice some_display all_modes

our_modes_lem_example :
    IsPreferred quality (our_modes quality (some 10))
    × ((m : VideoMode) → In m (our_modes quality (some 10)) ↔ (In m all_modes × Fits (some 10) m))
our_modes_lem_example = our_modes_lem quality (some 10)

abbrev pictures : List (Bytes × ℕ)
pictures = (0 ∷ 0 ∷ 1 ∷ 101 ∷ [], 1000) ∷ (0 ∷ 0 ∷ 1 ∷ 65 ∷ [], 34333) ∷ []

feed-mux_all_example :
    (let (d', out) = feed Ts.new (mux_all TsMux.new pictures).1 in
      (out ++ ready d'.video ≡ units_of pictures) × (d'.continuity_errors ≡ 0))
feed-mux_all_example = feed-mux_all pictures (refl, (refl, tt))

-- M1 waits for its answer.
abbrev waiting : SourceSession
waiting = record (Source.new some_config) { next_cseq = 8; pending = (7, Source.m1) ∷ [] }

on_message_at-twice_example :
    let s1 = (Steps.on_message_at waiting answer_ok 3).0 in
    Steps.on_message_at s1 answer_ok 4 ≡ (record s1 { last_heard = some 4 }, [])
on_message_at-twice_example =
    on_message_at-twice waiting answer_ok 200 (ascii "OK") 3 4 (omega arith, tt) refl

answer-IsNumbered_example : IsNumbered (Order.answer waiting (Order.message answer_ok 3)).0
answer-IsNumbered_example =
    answer-IsNumbered waiting (Order.message answer_ok 3) (omega arith) (omega arith, tt)

abbrev candidates : List Candidate
candidates =
    record { id = ascii "a"; name = ascii "Kitchen"; caps = none; pairing = none }
    ∷ record { id = ascii "b"; name = ascii "kitchen"; caps = none; pairing = none }
    ∷ []

match_by_name-Means_example :
    Means candidates (ascii "kitchen") (match_by_name candidates (ascii "kitchen"))
match_by_name-Means_example = match_by_name-Means candidates (ascii "kitchen")

is_valid-pin_from_example : is_valid (pin_from 123456789) ≡ true
is_valid-pin_from_example = is_valid-pin_from 123456789

abbrev evening : List Screen.Event
evening = Screen.up 5 ∷ Screen.provision 6 ∷ Screen.fail 7 ∷ Screen.join ∷ Screen.up 8 ∷ []

run-IsHonest_example : let (p, screen) = Screen.run Pairing.new none evening in IsHonest p screen
run-IsHonest_example = run-IsHonest evening
