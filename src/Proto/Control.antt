-- ===== src/Proto/Control.antt =====
-- crates/castr-proto/src/control.rs: the messages of the control channel, and their framing.
pub mod Framing
use castr.Base.{
  ℕ, ◌+◌, ◌%◌, ◌^◌, Bool, Option, none, some, List, ◌++◌, ltb, if◌then◌else◌, length, get_or, take,
  drop, Result, ok, err,
}
use castr.Base.Bytes.{Bytes, u32_to_le, u32_from_le}

abbrev pub protocol_version : ℕ
protocol_version = 1

abbrev pub max_control_frame : ℕ
max_control_frame = 65536

pub data Mode : Type 0 where
  game quality : Mode

pub data Codec : Type 0 where
  h264 : Codec

pub record Capabilities : Type 0 where
  pub max_width : ℕ
  pub max_height : ℕ
  pub max_fps : ℕ
  pub max_bitrate_bps : ℕ
  pub codecs : List Codec
  pub audio : Bool

pub record StreamParams : Type 0 where
  pub codec : Codec
  pub width : ℕ
  pub height : ℕ
  pub fps : ℕ
  pub mode : Mode
  pub bitrate_bps : ℕ

pub record Stats : Type 0 where
  pub frames_received : ℕ
  pub frames_dropped : ℕ
  pub fragments_lost : ℕ
  pub fragments_received : ℕ
  pub decode_queue_depth : ℕ
  pub interval_ms : ℕ

-- Texts are their bytes.
pub data ControlMessage : Type 0 where
  hello : (version : ℕ) (name : Bytes) (resume_token : Option Bytes) → ControlMessage
  hello_ack : (name : Bytes) (caps : Capabilities) → ControlMessage
  start_stream : StreamParams → ControlMessage
  session_token : Bytes → ControlMessage
  set_mode : Mode → ControlMessage
  request_keyframe : ControlMessage
  stats : Stats → ControlMessage
  pair_init : Bytes → ControlMessage
  pair_resp : Bytes → ControlMessage
  pair_proof : Bytes → ControlMessage
  pair_ok : ControlMessage
  error : (error_code : ℕ) (message : Bytes) → ControlMessage
  goodbye : (reason : Bytes) → ControlMessage

-- `postcard`'s errors are those of the decoder that is passed in.
pub data ControlError (E : Type 0) : Type 0 where
  too_large : ControlError E
  postcard : E → ControlError E

-- The two functions of the `postcard` crate: a value's bytes, and a value from the bytes in front.
module _ {T E : Type 0} (to_allocvec : T → Bytes) (from_bytes : Bytes → Result T E) where
  unfoldable pub encode_len_prefixed : T → Bytes
  encode_len_prefixed v = let body = to_allocvec v in u32_to_le (length body % 2 ^ 32) ++ body

  unfoldable pub decode_len_prefixed : Bytes → Result (Option (T × ℕ)) (ControlError E)
  decode_len_prefixed buf =
      if ltb (length buf) 4
      then ok none
      else (let len =
            u32_from_le (get_or buf 0 0) (get_or buf 1 0) (get_or buf 2 0) (get_or buf 3 0) in
          if ltb max_control_frame len
          then err too_large
          else if ltb (length buf) (4 + len)
          then ok none
          else elim (from_bytes (take len (drop 4 buf))) [
            | err e ↦ err (postcard e)
            | ok v ↦ ok (some (v, 4 + len))
          ])
