-- ===== src/Miracast/Source.antt =====
-- crates/castr-miracast/src/source/session.rs: the negotiation of the source with a display: its
-- state and the requests that it begins with. The
-- requests that wait for an answer are an association list by their sequence number.
pub mod Requests
pub mod Answers
pub mod Steps
pub mod Order
pub mod Once
pub mod Numbers
use castr.Base.{ℕ, ◌-◌, ◌*◌, min, max, Bool, true, false, Option, none, some, List, [], ◌∷◌, ◌++◌}
use castr.Base.Bytes.{Bytes}
use castr.Base.Text.{ascii}
use castr.Base.Maps.{insert}
use castr.Base.Words.{add32}
use castr.Proto.Control.{Mode}
use castr.Miracast.Rtsp.{Message, response, request, with_header}
use castr.Miracast.Rtsp.Negotiation.{Action, send}
use castr.Miracast.Caps
use castr.Miracast.Caps.{SinkCaps, ModeSelection}
use castr.Miracast.Caps.Choice.{needs_mbps}
use castr.Miracast.Wfd.{text_line}

abbrev pub keepalive_every : ℕ
keepalive_every = 5000000

abbrev pub keepalive_timeout : ℕ
keepalive_timeout = 10000000

abbrev pub m2_grace : ℕ
m2_grace = 2000000

abbrev pub base_url : Bytes
base_url = ascii "rtsp://localhost/wfd1.0"

pub record SourceConfig : Type 0 where
  pub mode : Mode
  pub rtp_port : ℕ
  pub session_id : Bytes
  pub ceiling_mbps : Option ℕ
  pub presentation_url : Bytes

pub data SourceState : Type 0 where
  init awaiting_caps configuring awaiting_setup playing done : SourceState

abbrev pub is_playing : SourceState → Bool
is_playing playing = true
is_playing _ = false

pub data Pending : Type 0 where
  m1 m3 m4 m5 keepalive teardown_sent : Pending

pub record SourceSession : Type 0 where
  pub cfg : SourceConfig
  pub state : SourceState
  pub next_cseq : ℕ
  pub asked_caps : Bool
  pub m1_answered : Option ℕ
  pub chosen : Option ModeSelection
  pub sink : Option SinkCaps
  pub sink_rtp_port : Option ℕ
  pub pending : List (ℕ × Pending)
  pub last_heard : Option ℕ
  pub last_keepalive : Option ℕ

unfoldable pub new : SourceConfig → SourceSession
new cfg = record {
  cfg = cfg;
  state = init;
  next_cseq = 1;
  asked_caps = false;
  m1_answered = none;
  chosen = none;
  sink = none;
  sink_rtp_port = none;
  pending = [];
  last_heard = none;
  last_keepalive = none;
}

-- The methods `sink_rtp_port` and `max_bitrate_kbps`.
unfoldable pub rtp_port_of : SourceSession → Option ℕ
rtp_port_of s = elim s.sink_rtp_port [
  | some p ↦ some p
  | none ↦ elim s.sink [ none ↦ none | some c ↦ some c.rtp_port ]
]

unfoldable pub max_bitrate_kbps : SourceSession → Option ℕ
max_bitrate_kbps s = elim s.sink [ none ↦ none | some c ↦ c.max_bitrate_kbps ]

-- The lower of the two limits, where there is one.
abbrev pub lower : Option ℕ → Option ℕ → Option ℕ
lower none b = b
lower (some a) none = some a
lower (some a) (some b) = some (min a b)

abbrev pub scaled : Option ℕ → Option ℕ
scaled none = none
scaled (some m) = some (m * 1000)

abbrev pub capped : ℕ → Option ℕ → ℕ
capped preferred none = preferred
capped preferred (some total) = min preferred (max (total - 2200) 1000)

unfoldable pub video_bitrate_kbps : SourceSession → Option ℕ
video_bitrate_kbps s = elim s.chosen [
  | none ↦ none
  | some c ↦
      some
        (capped (needs_mbps c.mode * 1000) (lower (scaled s.cfg.ceiling_mbps) (max_bitrate_kbps s)))
]

-- A request that is remembered until its answer: the state that has taken its number, and the
-- number.
unfoldable pub expect : SourceSession → Pending → SourceSession × ℕ
expect s p = (
  record s { next_cseq = add32 s.next_cseq 1; pending = insert s.next_cseq p s.pending },
  s.next_cseq,
)

unfoldable pub start : SourceSession → SourceSession × List Action
start s =
    let (s1, c) = expect (record s { state = awaiting_caps }) m1 in
    (
      s1,
      send (
            with_header (request (ascii "OPTIONS") (ascii "*") c []) (ascii "Require")
              (ascii "org.wfa.wfd1.0"))
          ∷ [],
    )

abbrev pub with_session : SourceSession → Message → Message
with_session s m = with_header m (ascii "Session") s.cfg.session_id

unfoldable pub response_with_session : SourceSession → ℕ → Message
response_with_session s number = with_session s (response 200 number [])

caps_body : Bytes
caps_body =
    text_line (ascii "wfd_video_formats")
    ++ (text_line (ascii "wfd_audio_codecs")
        ++ (text_line (ascii "wfd_content_protection") ++ text_line (ascii "wfd_client_rtp_ports")))

unfoldable pub ask_capabilities : SourceSession → SourceSession × Action
unfolding caps_body
ask_capabilities s =
    let (s1, c) = expect (record s { asked_caps = true }) m3 in
    (s1, send (request (ascii "GET_PARAMETER") base_url c caps_body))
