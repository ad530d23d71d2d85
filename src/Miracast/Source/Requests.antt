-- ===== src/Miracast/Source/Requests.antt =====
-- crates/castr-miracast/src/source/session.rs: the source's answers to the display's requests.
use castr.Base.{
  ℕ, Option, none, some, List, [], ◌∷◌, ◌++◌, ◌&&◌, not, if◌then◌else◌, is_some, unwrap_or, get_or,
}
use castr.Base.Bytes.{Bytes, bytes_eq}
use castr.Base.Text.{ascii, decimal}
use castr.Base.Strings.{trim, split, strip_prefix, contains, parse_unsigned, u16_bound}
use castr.Miracast.Rtsp.{Message, header, cseq, response, with_header}
use castr.Miracast.Rtsp.Negotiation.{Action, send, play, bitrate, keyframe, teardown}
use castr.Miracast.Wfd.{parse_max_bitrate_kbps}
use castr.Miracast.Source.{
  awaiting_setup, playing, done, SourceSession, with_session, response_with_session,
  ask_capabilities, rtp_port_of,
}

public : Bytes
public = ascii "org.wfa.wfd1.0, SETUP, TEARDOWN, PLAY, PAUSE, GET_PARAMETER, SET_PARAMETER"

on_options : SourceSession → ℕ → SourceSession × List Action
unfolding public
on_options s number =
    let answer = send (with_header (response 200 number []) (ascii "Public") public) in
    let (s1, ask) = ask_capabilities s in
    if not s.asked_caps && is_some s.m1_answered then (s1, answer ∷ ask ∷ []) else (s, answer ∷ [])

-- The part of a Transport header that names the port, if it does.
port_in : Bytes → Option ℕ
port_in part = elim (strip_prefix (ascii "client_port=") (trim part)) [
  | none ↦ none
  | some ports ↦ parse_unsigned 10 u16_bound (get_or (split 45 ports) 0 [])
]

first_port : List Bytes → Option ℕ
unfolding port_in
first_port [] = none
first_port (part ∷ parts) =
    let rest = first_port parts in elim (port_in part) [ none ↦ rest | some p ↦ some p ]

unfoldable pub transport_client_port : Bytes → Option ℕ
unfolding first_port
transport_client_port value = first_port (split 59 value)

set_port : SourceSession → Option ℕ → SourceSession
set_port s none = s
set_port s (some port) = record s { sink_rtp_port = some port }

on_setup : SourceSession → ℕ → Message → SourceSession × List Action
unfolding set_port
on_setup s number m =
    let s1 = set_port s (transport_client_port (unwrap_or (header m (ascii "transport")) [])) in
    let transport =
      ascii "RTP/AVP/UDP;unicast;client_port="
      ++ (decimal (unwrap_or (rtp_port_of s1) 5000)
          ++ (ascii ";server_port=" ++ decimal s1.cfg.rtp_port)) in
    (
      record s1 { state = awaiting_setup },
      send (with_header (with_session s1 (response 200 number [])) (ascii "Transport") transport)
          ∷ [],
    )

rate_asked : Option ℕ → List Action
rate_asked none = []
rate_asked (some kbps) = bitrate kbps ∷ []

on_set_parameter : SourceSession → ℕ → Message → List Action
unfolding rate_asked
on_set_parameter s number m =
    send (response_with_session s number)
    ∷ ((if contains (ascii "wfd_idr_request") m.body then keyframe ∷ [] else [])
        ++ rate_asked (parse_max_bitrate_kbps m.body))

unfoldable pub on_request : SourceSession → Bytes → Message → SourceSession × List Action
unfolding on_options on_setup on_set_parameter
on_request s method m =
    let number = unwrap_or (cseq m) 0 in
    let polite = send (response_with_session s number) in
    if bytes_eq method (ascii "OPTIONS")
    then on_options s number
    else if bytes_eq method (ascii "SETUP")
    then on_setup s number m
    else if bytes_eq method (ascii "PLAY")
    then (record s { state = playing }, polite ∷ play ∷ [])
    else if bytes_eq method (ascii "TEARDOWN")
    then (
      record s { state = done },
      polite ∷ teardown (ascii "session: the display ended the session") ∷ [],
    )
    else if bytes_eq method (ascii "SET_PARAMETER")
    then (s, on_set_parameter s number m)
    else if bytes_eq method (ascii "GET_PARAMETER")
    then (s, polite ∷ [])
    else if bytes_eq method (ascii "PAUSE")
    then (s, polite ∷ [])
    else (s, send (response 200 number []) ∷ [])
