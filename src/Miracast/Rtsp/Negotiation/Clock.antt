-- ===== src/Miracast/Rtsp/Negotiation/Clock.antt =====
-- crates/castr-miracast/src/rtsp.rs: the sink's keep-alives, and the requests that it makes itself.

use castr.Base.{
  ℕ, ◌-◌, Bool, false, Option, none, some, List, [], ◌∷◌, ◌++◌, ltb, leb, if◌then◌else◌,
}
use castr.Base.Bytes.{Bytes}
use castr.Base.Text.{ascii, decimal}
use castr.Miracast.Rtsp.{request}
use castr.Miracast.Rtsp.Negotiation.{
  done, is_playing, is_done, Action, send, teardown, Negotiation, take_cseq, uri, with_session,
  keepalive_every, keepalive_timeout, idr_min_interval,
}

-- `saturating_duration_since`
abbrev pub elapsed_past : Option ℕ → ℕ → ℕ → Bool
elapsed_past none now limit = false
elapsed_past (some t) now limit = ltb limit (now - t)

keepalive_due : Negotiation → ℕ → Bool
keepalive_due n now = elim n.last_keepalive [
  | some t ↦ leb keepalive_every (now - t)
  | none ↦ elim n.last_heard [ none ↦ false | some t ↦ leb keepalive_every (now - t) ]
]

send_keepalive : Negotiation → ℕ → Negotiation × List Action
send_keepalive n now =
    let (n1, c) = take_cseq (record n { last_keepalive = some now }) in
    (n1, send (with_session n1.peer_session (request (ascii "GET_PARAMETER") (uri n1) c [])) ∷ [])

unfoldable pub tick : Negotiation → ℕ → Negotiation × List Action
unfolding keepalive_due send_keepalive
tick n now =
    if is_done n.state
    then (n, [])
    else if elapsed_past n.last_heard now keepalive_timeout
    then (record n { state = done }, teardown (ascii "no keep-alive reply for 10 s") ∷ [])
    else if keepalive_due n now
    then send_keepalive n now
    else (n, [])

unfoldable pub request_bitrate : Negotiation → ℕ → Negotiation × List Action
request_bitrate n kbps =
    let (n1, c) = take_cseq n in
    let body = ascii "microsoft_max_bitrate: " ++ (decimal kbps ++ (13 ∷ 10 ∷ [])) in
    if is_playing n.state
    then (
      n1,
      send (with_session n1.peer_session (request (ascii "SET_PARAMETER") (uri n1) c body)) ∷ [],
    )
    else (n, [])

-- Whether a key frame was asked for less than the interval ago.
unfoldable pub asked_lately : Option ℕ → ℕ → Bool
asked_lately none now = false
asked_lately (some t) now = ltb (now - t) idr_min_interval

idr_body : Bytes
idr_body = ascii "wfd_idr_request" ++ (13 ∷ 10 ∷ [])

unfoldable pub request_idr : Negotiation → ℕ → Negotiation × List Action
unfolding asked_lately idr_body
request_idr n now =
    let (n1, c) = take_cseq (record n { last_idr = some now }) in
    if asked_lately n.last_idr now then (n, []) else (
      n1,
      send (with_session n1.peer_session (request (ascii "SET_PARAMETER") (uri n1) c idr_body))
          ∷ [],
    )
