-- ===== src/Miracast/Rtsp/Negotiation/Messages.antt =====
-- crates/castr-miracast/src/rtsp.rs: what the sink does with the source's messages.

use castr.Base.{
  ℕ, zero, suc, ◌+◌, ◌/◌, ◌%◌, Bool, true, false, Option, none, some, List, [], ◌∷◌, ◌++◌, ◌==◌,
  ◌&&◌, ◌||◌, not, if◌then◌else◌, is_empty, is_none, unwrap_or, get_or,
}
use castr.Base.Bytes.{Bytes, bytes_eq}
use castr.Base.Text.{ascii, decimal}
use castr.Base.Strings.{trim, split, split_whitespace, parse_unsigned, u32_bound}
use castr.Miracast.Rtsp.{
  StartLine, request_line, status_line, Message, header, cseq, response, request, with_header,
}
use castr.Miracast.Caps.{VideoMode}
use castr.Miracast.Wfd.{capabilities_body, parse_parameter_body}
use castr.Miracast.Rtsp.Negotiation.{
  capabilities, ready, playing, done, is_ready, Action, send, play, teardown, Negotiation,
  take_cseq, uri, cea_mode,
}

on_options : Negotiation → ℕ → Negotiation × List Action
on_options n number =
    let (n', c) = take_cseq n in
    (
      n',
      send (
            with_header (response 200 number []) (ascii "Public")
              (ascii "org.wfa.wfd1.0, SETUP, TEARDOWN, PLAY, PAUSE, GET_PARAMETER, SET_PARAMETER"))
          ∷ send (
              with_header (request (ascii "OPTIONS") (ascii "*") c []) (ascii "Require")
                (ascii "org.wfa.wfd1.0"))
          ∷ [],
    )

on_get_parameter : Negotiation → ℕ → Message → Negotiation × List Action
on_get_parameter n number m =
    if is_empty (trim m.body) then (n, send (response 200 number []) ∷ []) else (
      record n { state = capabilities },
      send (response 200 number (capabilities_body n.caps)) ∷ [],
    )

-- The place of the one bit of a mask below 2 ^ 32, if it has exactly one.
unfoldable pub single_bit : ℕ → ℕ → Option ℕ
single_bit zero mask = none
single_bit (suc fuel) mask =
    let rest = single_bit fuel (mask / 2) in
    if mask == 1
    then some 0
    else if mask % 2 == 1
    then none
    else elim rest [ none ↦ none | some i ↦ some (i + 1) ]

chosen_in : Option ℕ → Option ℕ → Option ℕ → Option VideoMode
chosen_in (some cea) (some vesa) (some hh) =
    if not (vesa == 0) || not (hh == 0)
    then none
    else elim (single_bit 32 cea) [ none ↦ none | some bit ↦ cea_mode bit ]
chosen_in _ _ _ = none

hex32 : Bytes → Option ℕ
hex32 s = parse_unsigned 16 u32_bound s

chosen_of : List Bytes → Option VideoMode
unfolding hex32 chosen_in
chosen_of (f0 ∷ f1 ∷ f2 ∷ f3 ∷ f4 ∷ f5 ∷ f6 ∷ more) = chosen_in (hex32 f4) (hex32 f5) (hex32 f6)
chosen_of _ = none

unfoldable pub parse_chosen_video : Bytes → Option VideoMode
unfolding chosen_of
parse_chosen_video value = chosen_of (split_whitespace value)

-- What the loop over the parameters has read: the state, the trigger, and whether it was left for a
-- format that was never offered.
pub record Reading : Type 0 where
  pub negotiation : Negotiation
  pub trigger : Option Bytes
  pub refused : Bool

read_video : Reading → Option VideoMode → Reading
read_video r none = record r { refused = true }
read_video r (some mode) =
    let n = r.negotiation in record r { negotiation = record n { chosen = some mode } }

read_url : Reading → Bytes → Reading
read_url r value =
    let n = r.negotiation in
    record r { negotiation = record n { presentation_url = get_or (split_whitespace value) 0 [] } }

unfoldable pub read_param : Reading → Bytes × Bytes → Reading
unfolding read_video read_url
read_param r (name, value) =
    if r.refused
    then r
    else if bytes_eq name (ascii "wfd_video_formats")
    then read_video r (parse_chosen_video value)
    else if bytes_eq name (ascii "wfd_presentation_URL")
    then read_url r value
    else if bytes_eq name (ascii "wfd_trigger_method")
    then record r { trigger = some (trim value) }
    else r

unfoldable pub read_params : Reading → List (Bytes × Bytes) → Reading
read_params r [] = r
read_params r (p ∷ ps) = read_params (read_param r p) ps

is_setup : Option Bytes → Bool
is_setup none = false
is_setup (some t) = bytes_eq t (ascii "SETUP")

send_setup : Negotiation → ℕ → Negotiation × List Action
send_setup n number =
    let (n1, c) = take_cseq n in
    (
      record n1 { state = ready },
      send (response 200 number [])
          ∷ send (
              with_header (request (ascii "SETUP") (uri n1) c []) (ascii "Transport")
                (ascii "RTP/AVP/UDP;unicast;client_port=" ++ decimal n1.caps.ports.rtp_port))
          ∷ [],
    )

unfoldable pub on_set_parameter : Negotiation → ℕ → Message → Negotiation × List Action
unfolding is_setup send_setup
on_set_parameter n number m =
    let r =
      read_params (record { negotiation = n; trigger = none; refused = false })
        (parse_parameter_body m.body) in
    if r.refused
    then (r.negotiation, send (response 400 number []) ∷ [])
    else if is_setup r.trigger
    then send_setup r.negotiation number
    else (r.negotiation, send (response 200 number []) ∷ [])

unfoldable pub on_request : Negotiation → Bytes → Message → Negotiation × List Action
unfolding on_options on_get_parameter
on_request n method m =
    let number = unwrap_or (cseq m) 0 in
    if bytes_eq method (ascii "OPTIONS")
    then on_options n number
    else if bytes_eq method (ascii "GET_PARAMETER")
    then on_get_parameter n number m
    else if bytes_eq method (ascii "SET_PARAMETER")
    then on_set_parameter n number m
    else if bytes_eq method (ascii "TEARDOWN")
    then (
      record n { state = done },
      send (response 200 number []) ∷ teardown (ascii "source sent TEARDOWN") ∷ [],
    )
    else (n, send (response 400 number []) ∷ [])

-- The answer to `SETUP`, by its header `Session`.
on_setup_answer : Negotiation → Option Bytes → Negotiation × List Action
on_setup_answer n none = (n, teardown (ascii "SETUP response carried no Session") ∷ [])
on_setup_answer n (some s) =
    let session = trim (get_or (split 59 s) 0 s) in
    let (n1, c) = take_cseq (record n { peer_session = some session }) in
    (
      record n1 { state = playing },
      send (with_header (request (ascii "PLAY") (uri n1) c []) (ascii "Session") session)
          ∷ play
          ∷ [],
    )

unfoldable pub on_response : Negotiation → ℕ → Message → Negotiation × List Action
unfolding on_setup_answer
on_response n status m =
    if not (status == 200)
    then (n, teardown (ascii "source refused a request") ∷ [])
    else if is_ready n.state && is_none n.peer_session
    then on_setup_answer n (header m (ascii "session"))
    else (n, [])

unfoldable pub by_start : Negotiation → Message → StartLine → Negotiation × List Action
by_start n m (request_line method uri) = on_request n method m
by_start n m (status_line status reason) = on_response n status m

unfoldable pub on_message_at : Negotiation → Message → ℕ → Negotiation × List Action
unfolding by_start
on_message_at n m now = by_start (record n { last_heard = some now }) m m.start
