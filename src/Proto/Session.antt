-- ===== src/Proto/Session.antt =====
-- crates/castr-proto/src/session.rs: the receiver's side of the control channel, as a state
-- machine.
pub mod Laws
use castr.Base.{
  ℕ, ◌-◌, Bool, false, Option, none, some, List, [], ◌∷◌, ◌++◌, leb, ◌==◌, if◌then◌else◌, ◌&&◌, not,
}
use castr.Base.Bytes.{Bytes, bytes_eq}
use castr.Base.Text.{ascii, decimal}
use castr.Proto.Control.{
  Capabilities, StreamParams, ControlMessage, hello, hello_ack, start_stream, session_token,
  set_mode, error, goodbye, protocol_version, Mode,
}

abbrev pub token_ttl_us : ℕ
token_ttl_us = 60000000

pub data ReceiverState : Type 0 where
  awaiting_hello : ReceiverState
  streaming : (params : Option StreamParams) → ReceiverState
  disconnected : (since_us : ℕ) → ReceiverState
  closed : ReceiverState

pub data Action : Type 0 where
  send : ControlMessage → Action
  resumed : Action
  fail : Bytes → Action

pub record ReceiverSession : Type 0 where
  pub name : Bytes
  pub caps : Capabilities
  pub token : Bytes
  pub state : ReceiverState
  pub params : Option StreamParams

unfoldable pub new : Bytes → Capabilities → Bytes → ReceiverSession
new name caps token = record {
  name = name;
  caps = caps;
  token = token;
  state = awaiting_hello;
  params = none;
}

abbrev pub ack : ReceiverSession → ControlMessage
ack s = hello_ack s.name s.caps

disconnect_state : ReceiverState → ℕ → ReceiverState
disconnect_state closed now_us = closed
disconnect_state _ now_us = disconnected now_us

unfoldable pub on_disconnect : ReceiverSession → ℕ → ReceiverSession
unfolding disconnect_state
on_disconnect s now_us = record s { state = disconnect_state s.state now_us }

-- `resume_token == Some(self.token)`
abbrev pub is_own_token : Option Bytes → Bytes → Bool
is_own_token none token = false
is_own_token (some t) token = bytes_eq t token

-- A `Hello` of another version, in any state.
refuse_version : ReceiverSession → ℕ → ReceiverSession × List Action
refuse_version s version = (
  record s { state = closed },
  send (error 2 (ascii "unsupported protocol version " ++ decimal version))
      ∷ fail (ascii "version mismatch")
      ∷ [],
)

-- A `Hello` of our version.
greet : ReceiverSession → ReceiverState → Option Bytes → ℕ → ReceiverSession × List Action
greet s awaiting_hello resume_token now_us =
    (record s { state = streaming none }, send (ack s) ∷ send (session_token s.token) ∷ [])
greet s (disconnected since_us) resume_token now_us =
    let fresh = leb (now_us - since_us) token_ttl_us in
    if is_own_token resume_token s.token && fresh
    then (record s { state = streaming s.params }, send (ack s) ∷ resumed ∷ [])
    else (
      record s { state = closed },
      send (error 1 (ascii "invalid or expired session token"))
          ∷ fail (ascii "bad resume token")
          ∷ [],
    )
greet s (streaming params) resume_token now_us = (s, [])
greet s closed resume_token now_us = (s, [])

start : ReceiverSession → ReceiverState → StreamParams → ReceiverSession × List Action
start s (streaming params) p = (record s { params = some p; state = streaming (some p) }, [])
start s _ p = (s, [])

with_mode : Option StreamParams → Mode → Option StreamParams
with_mode none m = none
with_mode (some p) m = some (record p { mode = m })

change_mode : ReceiverSession → ReceiverState → Mode → ReceiverSession × List Action
change_mode s (streaming params) m = (record s { params = with_mode s.params m }, [])
change_mode s _ m = (s, [])

unfoldable pub on_message : ReceiverSession → ControlMessage → ℕ → ReceiverSession × List Action
unfolding refuse_version greet start with_mode change_mode
on_message s (hello version name resume_token) now_us =
    if not (version == protocol_version)
    then refuse_version s version
    else greet s s.state resume_token now_us
on_message s (start_stream p) now_us = start s s.state p
on_message s (set_mode m) now_us = change_mode s s.state m
on_message s (goodbye reason) now_us = (record s { state = closed }, [])
on_message s _ now_us = (s, [])
