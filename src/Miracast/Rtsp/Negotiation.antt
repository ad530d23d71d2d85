-- ===== src/Miracast/Rtsp/Negotiation.antt =====
-- crates/castr-miracast/src/rtsp.rs, the second half: the negotiation of the sink with a source. An
-- Instant is a number of microseconds.
pub mod Messages
pub mod Clock
pub mod Pace
pub mod Silence
use castr.Base.Words.{add32}
use castr.Base.{ℕ, Bool, true, false, Option, none, some, [], ◌++◌, ◌==◌, if◌then◌else◌, is_empty}
use castr.Base.Bytes.{Bytes}
use castr.Base.Text.{ascii}
use castr.Miracast.Rtsp.{Message, with_header}
use castr.Miracast.Caps.{VideoMode, video}
use castr.Miracast.Wfd.{Capabilities}

abbrev pub keepalive_every : ℕ
keepalive_every = 5000000

abbrev pub keepalive_timeout : ℕ
keepalive_timeout = 10000000

abbrev pub idr_min_interval : ℕ
idr_min_interval = 500000

unfoldable pub cea_mode : ℕ → Option VideoMode
cea_mode bit = if bit == 5 then some (video 1280 720 30) else none

pub data NegState : Type 0 where
  init capabilities ready playing done : NegState

abbrev pub is_ready : NegState → Bool
is_ready ready = true
is_ready _ = false

abbrev pub is_playing : NegState → Bool
is_playing playing = true
is_playing _ = false

abbrev pub is_done : NegState → Bool
is_done done = true
is_done _ = false

pub data Action : Type 0 where
  send : Message → Action
  play : Action
  bitrate : ℕ → Action
  keyframe : Action
  teardown : Bytes → Action

pub record Negotiation : Type 0 where
  pub caps : Capabilities
  pub session_id : Bytes
  pub state : NegState
  pub next_cseq : ℕ
  pub presentation_url : Bytes
  pub chosen : Option VideoMode
  pub peer_session : Option Bytes
  pub last_heard : Option ℕ
  pub last_keepalive : Option ℕ
  pub last_idr : Option ℕ

unfoldable pub new : Capabilities → Bytes → Negotiation
new caps session_id = record {
  caps = caps;
  session_id = session_id;
  state = init;
  next_cseq = 100;
  presentation_url = [];
  chosen = none;
  peer_session = none;
  last_heard = none;
  last_keepalive = none;
  last_idr = none;
}

-- `Negotiation::cseq`: the number for a request, and the state after it is taken.
abbrev pub take_cseq : Negotiation → Negotiation × ℕ
take_cseq n = (record n { next_cseq = add32 n.next_cseq 1 }, n.next_cseq)

unfoldable pub uri : Negotiation → Bytes
uri n =
    if is_empty n.presentation_url
    then ascii "rtsp://localhost/wfd1.0/" ++ n.session_id
    else n.presentation_url

-- The header `Session` where the source has given one.
unfoldable pub with_session : Option Bytes → Message → Message
with_session none m = m
with_session (some s) m = with_header m (ascii "Session") s
