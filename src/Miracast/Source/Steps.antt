-- ===== src/Miracast/Source/Steps.antt =====
-- crates/castr-miracast/src/source/session.rs: messages, the clock and the end of a session.
use castr.Base.{
  ℕ, ◌-◌, Bool, true, false, Option, none, some, List, [], ◌∷◌, ltb, leb, ◌&&◌, not, if◌then◌else◌,
}
use castr.Base.Text.{ascii}
use castr.Miracast.Rtsp.{StartLine, request_line, status_line, Message, request}
use castr.Miracast.Rtsp.Negotiation.{Action, send, teardown}
use castr.Miracast.Source.{
  done, is_playing, keepalive, teardown_sent, SourceSession, expect, with_session, ask_capabilities,
  keepalive_every, keepalive_timeout, m2_grace,
}
use castr.Miracast.Source.Requests.{on_request}
use castr.Miracast.Source.Answers.{on_response}

unfoldable pub by_start : SourceSession → Message → ℕ → StartLine → SourceSession × List Action
by_start s m now (request_line method uri) = on_request s method m
by_start s m now (status_line status reason) = on_response s status m now

unfoldable pub on_message_at : SourceSession → Message → ℕ → SourceSession × List Action
unfolding by_start
on_message_at s m now = by_start (record s { last_heard = some now }) m now m.start

-- Whether M1 was answered the grace period ago.
unfoldable pub grace_over : Option ℕ → ℕ → Bool
grace_over none now = false
grace_over (some t) now = leb m2_grace (now - t)

unfoldable pub is_silent : Option ℕ → ℕ → Bool
is_silent none now = false
is_silent (some t) now = ltb keepalive_timeout (now - t)

unfoldable pub keepalive_due : Option ℕ → ℕ → Bool
keepalive_due none now = true
keepalive_due (some t) now = leb keepalive_every (now - t)

send_keepalive : SourceSession → ℕ → SourceSession × List Action
send_keepalive s now =
    let (s1, c) = expect (record s { last_keepalive = some now }) keepalive in
    (s1, send (with_session s1 (request (ascii "GET_PARAMETER") s1.cfg.presentation_url c [])) ∷ [])

tick_playing : SourceSession → ℕ → SourceSession × List Action
unfolding send_keepalive
tick_playing s now =
    if not (is_playing s.state)
    then (s, [])
    else if is_silent s.last_heard now
    then (record s { state = done }, teardown (ascii "session: the display stopped answering") ∷ [])
    else if keepalive_due s.last_keepalive now
    then send_keepalive s now
    else (s, [])

unfoldable pub tick : SourceSession → ℕ → SourceSession × List Action
unfolding tick_playing
tick s now =
    let (s1, ask) = ask_capabilities s in
    if not s.asked_caps && grace_over s.m1_answered now then (s1, ask ∷ []) else tick_playing s now

unfoldable pub end_session : SourceSession → SourceSession × Message
end_session s =
    let (s1, c) = expect (record s { state = done }) teardown_sent in
    (s1, with_session s1 (request (ascii "TEARDOWN") s1.cfg.presentation_url c []))
