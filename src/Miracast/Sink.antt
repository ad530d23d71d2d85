-- ===== src/Miracast/Sink.antt =====
-- crates/castr-miracast/src/session.rs: one session of the sink, bytes in and events out.
pub mod Messages
pub mod Stream
use castr.Base.{
  ℕ, zero, suc, ◌-◌, Bool, true, false, Option, none, some, List, [], ◌∷◌, ◌++◌, ltb, ◌==◌, ◌&&◌,
  if◌then◌else◌, ok, err, length, drop,
}
use castr.Base.Bytes.{Bytes}
use castr.Base.Text.{ascii}
use castr.Base.Words.{add64}
use castr.Base.Chunks.{chunks}
use castr.Miracast.Wfd.{Capabilities}
use castr.Miracast.Caps.{VideoMode}
use castr.Miracast.Rtsp
use castr.Miracast.Rtsp.{Message, format}
use castr.Miracast.Rtsp.Negotiation
use castr.Miracast.Rtsp.Negotiation.{Negotiation, Action, send, play, bitrate, keyframe, teardown}
use castr.Miracast.Rtsp.Negotiation.Messages.{on_message_at}
use castr.Miracast.Rtsp.Negotiation.Clock
use castr.Miracast.Rtsp.Negotiation.Clock.{request_bitrate, request_idr}
use castr.Miracast.Rtp
use castr.Miracast.Rtp.{Packet, Reorder}
use castr.Miracast.Ts
use castr.Miracast.Ts.{AccessUnit, Demux, packet_len}
use castr.Miracast.Quality
use castr.Miracast.Quality.{BitrateLadder, sample}

abbrev pub pt_mp2t : ℕ
pt_mp2t = 33

abbrev pub reorder_window : ℕ
reorder_window = 32

abbrev pub media_silence : ℕ
media_silence = 2000000

pub data SinkEvent : Type 0 where
  send_rtsp : Bytes → SinkEvent
  video : (bytes : Bytes) (pts_us : Option ℕ) → SinkEvent
  audio : (bytes : Bytes) (pts_us : Option ℕ) → SinkEvent
  started : VideoMode → SinkEvent
  session_ended : Bytes → SinkEvent

pub record Session : Type 0 where
  pub negotiation : Negotiation
  pub rtsp_buf : Bytes
  pub reorder : Reorder
  pub demux : Demux
  pub playing : Bool
  pub lost_at_last_check : ℕ
  pub ladder : BitrateLadder
  pub last_media : Option ℕ

unfoldable pub new : Capabilities → Bytes → Session
new caps session_id = record {
  negotiation = Negotiation.new caps session_id;
  rtsp_buf = [];
  reorder = Rtp.new reorder_window;
  demux = Ts.new;
  playing = false;
  lost_at_last_check = 0;
  ladder = Quality.new;
  last_media = none;
}

on_play : Option VideoMode → List SinkEvent
on_play none = []
on_play (some mode) = started mode ∷ []

-- The loop over the actions of the negotiation.
unfoldable pub apply : Session → List Action → Session × List SinkEvent
unfolding on_play
apply s [] = (s, [])
apply s (send m ∷ rest) = let (s', out) = apply s rest in (s', send_rtsp (format m) ∷ out)
apply s (keyframe ∷ rest) = apply s rest
apply s (bitrate kbps ∷ rest) = apply s rest
apply s (play ∷ rest) =
    let (s', out) = apply (record s { playing = true }) rest in
    (s', on_play s.negotiation.chosen ++ out)
apply s (teardown reason ∷ rest) =
    let (s', out) = apply (record s { playing = false }) rest in (s', session_ended reason ∷ out)

-- The negotiation's step, and its actions.
abbrev pub act : Session → Negotiation × List Action → Session × List SinkEvent
act s (n, actions) = apply (record s { negotiation = n }) actions

-- A message off the front of the buffer.
unfoldable pub on_one : Session → Message → ℕ → ℕ → Session × List SinkEvent
on_one s m used now =
    act (record s { rtsp_buf = drop used s.rtsp_buf }) (on_message_at s.negotiation m now)

-- The loop takes a message off the buffer in each turn, while the buffer holds a whole one.
unfoldable pub rtsp_loop : ℕ → Session → ℕ → Session × List SinkEvent
rtsp_loop zero s now = (s, [])
rtsp_loop (suc fuel) s now = elim (Rtsp.parse s.rtsp_buf) [
  | ok (some (m, used)) ↦
      let (s1, out) = on_one s m used now in
      let (s2, more) = rtsp_loop fuel s1 now in (s2, out ++ more)
  | ok none ↦ (s, [])
  | err e ↦ (record s { rtsp_buf = [] }, session_ended (ascii "malformed RTSP") ∷ [])
]

-- A message has four bytes at least, so the length of the buffer is fuel enough.
unfoldable pub on_rtsp_bytes_at : Session → Bytes → ℕ → Session × List SinkEvent
on_rtsp_bytes_at s bytes now =
    let s' : Session = record s { rtsp_buf = s.rtsp_buf ++ bytes } in
    rtsp_loop (suc (length s'.rtsp_buf)) s' now

event_of : AccessUnit → SinkEvent
event_of (AccessUnit.video bytes pts_us) = video bytes pts_us
event_of (AccessUnit.audio bytes pts_us) = audio bytes pts_us

unfoldable pub unit_events : List AccessUnit → List SinkEvent
unfolding event_of
unit_events [] = []
unit_events (u ∷ us) = event_of u ∷ unit_events us

-- The packets that the window gives out, through the demultiplexer.
unfoldable pub feed_all : Demux → List Packet → Demux × List AccessUnit
feed_all d [] = (d, [])
feed_all d (p ∷ ps) =
    let (d1, out) = Ts.feed d (chunks packet_len p.payload) in
    let (d2, more) = feed_all d1 ps in (d2, out ++ more)

abbrev pub total_lost : Session → ℕ
total_lost s = add64 s.reorder.lost s.demux.continuity_errors

-- A key frame is asked for where more is lost than at the last check.
unfoldable pub check_loss : Session → ℕ → Session × List SinkEvent
check_loss s now =
    if ltb s.lost_at_last_check (total_lost s)
    then act (record s { lost_at_last_check = total_lost s }) (request_idr s.negotiation now)
    else (s, [])

ask_rate : Session → Option ℕ → Session × List SinkEvent
ask_rate s none = (s, [])
ask_rate s (some kbps) = act s (request_bitrate s.negotiation kbps)

unfoldable pub sample_ladder : Session → ℕ → ℕ → Session × List SinkEvent
unfolding ask_rate
sample_ladder s lost now =
    let (l, rate) = sample s.ladder lost now in ask_rate (record s { ladder = l }) rate

on_packet : Session → Packet → ℕ → Session × List SinkEvent
on_packet s packet now =
    let (r, ps) = Rtp.push s.reorder packet in
    let (d, units) = feed_all s.demux ps in
    let s1 : Session = record s { reorder = r; demux = d; last_media = some now } in
    let (s2, idr) = check_loss s1 now in
    let (s3, rate) = sample_ladder s2 (total_lost s1) now in
    (s3, unit_events units ++ (idr ++ rate))

unfoldable pub on_rtp_datagram_at : Session → Bytes → ℕ → Session × List SinkEvent
unfolding on_packet
on_rtp_datagram_at s datagram now = elim (Rtp.parse datagram) [
  | none ↦ (s, [])
  | some packet ↦
      if s.playing && packet.payload_type == pt_mp2t then on_packet s packet now else (s, [])
]

is_quiet : Option ℕ → ℕ → Bool
is_quiet none now = false
is_quiet (some t) now = ltb media_silence (now - t)

unfoldable pub tick : Session → ℕ → Session × List SinkEvent
unfolding is_quiet
tick s now =
    let (s1, rate) = sample_ladder s (total_lost s) now in
    let (s2, out) = act s1 (Clock.tick s1.negotiation now) in
    if s.playing && is_quiet s.last_media now
    then (record s { playing = false }, session_ended (ascii "no media for 2 s") ∷ [])
    else (s2, rate ++ out)

unfoldable pub note_decode_error : Session → ℕ → Session × List SinkEvent
note_decode_error s now = act s (request_idr s.negotiation now)
