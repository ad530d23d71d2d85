-- ===== src/Miracast/Source/Order.antt =====
-- The order of the source's requests: the display is asked for its capabilities once, and after M1.
use castr.Base.{
  ℕ, ◌+◌, ◌≤◌, ◌≡◌, sym, ap, ◌∙◌, ◌⊎◌, inl, inr, refl, arith, Bool, true, false, Option, none, some,
  List, [], ◌∷◌, ◌++◌, ◌&&◌, not, if◌then◌else◌, is_some, is_empty,
}
use castr.Base.Bytes.{Bytes, bytes_eq}
use castr.Base.Text.{ascii}
use castr.Base.Maps.{lookup, remove}
use castr.Miracast.Rtsp.{StartLine, request_line, status_line, Message, request, response, cseq}
use castr.Miracast.Rtsp.Negotiation.{Action, send}
use castr.Miracast.Source.{
  SourceConfig, SourceSession, Pending, m1, m3, m4, m5, keepalive, teardown_sent, expect, start,
  ask_capabilities, response_with_session, new,
}
use castr.Miracast.Source.Requests.{on_request}
use castr.Miracast.Source.Answers.{on_capabilities, on_answer, answer_pending, on_response}
use castr.Miracast.Source.Steps.{by_start, on_message_at, grace_over, tick}

-- Whether an action asks for capabilities: a request GET_PARAMETER that names some in its body.
asks_start : StartLine → Bool
unfolding bytes_eq
asks_start (request_line method uri) = bytes_eq method (ascii "GET_PARAMETER")
asks_start (status_line status reason) = false

unfoldable pub is_ask : Action → Bool
unfolding asks_start
is_ask (send m) = asks_start m.start && not (is_empty m.body)
is_ask _ = false

abbrev pub asks : List Action → ℕ
asks [] = 0
asks (a ∷ out) = (if is_ask a then 1 else 0) + asks out

-- What a step does: it asks for nothing and keeps what is known, or it asks for the first time,
-- after M1 was answered.
abbrev IsStep : SourceSession → SourceSession × List Action → Type 0
IsStep s (s', out) =
    ((s'.asked_caps ≡ s.asked_caps)
      × (asks out ≡ 0)
      × (is_some s.m1_answered ≡ true → is_some s'.m1_answered ≡ true))
    ⊎ ((s.asked_caps ≡ false)
        × (s'.asked_caps ≡ true)
        × (asks out ≡ 1)
        × (is_some s.m1_answered ≡ true)
        × (is_some s'.m1_answered ≡ true))

ask_capabilities_lem :
    (s : SourceSession)
    → let (s', a) = ask_capabilities s in
      (s'.asked_caps ≡ true) × (is_ask a ≡ true) × (s'.m1_answered ≡ s.m1_answered)
unfolding ask_capabilities expect is_ask request
ask_capabilities_lem s = (refl, refl, refl)

on_request_lem :
    (s : SourceSession) (method : Bytes) (m : Message) → IsStep s (on_request s method m)
unfolding on_request is_ask response response_with_session
on_request_lem s method m = ground (arith, ask_capabilities_lem s)

on_capabilities_lem : (s : SourceSession) (m : Message) → IsStep s (on_capabilities s m)
unfolding on_capabilities is_ask request expect
on_capabilities_lem s m = ground arith

on_answer_lem :
    (s : SourceSession) (p : Pending) (m : Message) (now : ℕ) → IsStep s (on_answer s p m now)
unfolding on_answer is_ask request expect
on_answer_lem s m1 m now = inl (refl, refl, λ e. refl)
on_answer_lem s m3 m now = on_capabilities_lem s m
on_answer_lem s m4 m now = ground arith
on_answer_lem s m5 m now = inl (refl, refl, λ e. e)
on_answer_lem s keepalive m now = inl (refl, refl, λ e. e)
on_answer_lem s teardown_sent m now = inl (refl, refl, λ e. e)

answer_pending_lem :
    (s : SourceSession) (number : ℕ) (p : Option Pending) (status : ℕ) (m : Message) (now : ℕ)
    → IsStep s (answer_pending s number p status m now)
unfolding answer_pending is_ask
answer_pending_lem s number none status m now = inl (refl, refl, λ e. e)
answer_pending_lem s number (some p) status m now =
    ground (arith, on_answer_lem (record s { pending = remove number s.pending }) p m now)

on_response_lem :
    (s : SourceSession) (status : ℕ) (m : Message) (now : ℕ) → IsStep s (on_response s status m now)
unfolding on_response
on_response_lem s status m now = go (cseq m)
  where
    go :
        (o : Option ℕ)
        → IsStep s (elim o [
          | none ↦ (s, [])
          | some number ↦ answer_pending s number (lookup number s.pending) status m now
        ])
    go none = inl (refl, refl, λ e. e)
    go (some number) = answer_pending_lem s number (lookup number s.pending) status m now

by_start_lem :
    (s : SourceSession) (m : Message) (now : ℕ) (start : StartLine)
    → IsStep s (by_start s m now start)
unfolding by_start
by_start_lem s m now (request_line method uri) = on_request_lem s method m
by_start_lem s m now (status_line status reason) = on_response_lem s status m now

tick_lem : (s : SourceSession) (now : ℕ) → IsStep s (tick s now)
unfolding tick is_ask request expect grace_over
tick_lem s now = ground (arith, ask_capabilities_lem s)

-- What the session loop calls.
pub data Call : Type 0 where
  message : Message → ℕ → Call
  at_tick : ℕ → Call

unfoldable pub answer : SourceSession → Call → SourceSession × List Action
answer s (message m now) = on_message_at s m now
answer s (at_tick now) = tick s now

unfoldable pub run : SourceSession → List Call → SourceSession × List Action
run s [] = (s, [])
run s (c ∷ cs) = let (s1, out) = answer s c in let (s2, more) = run s1 cs in (s2, out ++ more)

answer_lem : (s : SourceSession) (c : Call) → IsStep s (answer s c)
unfolding answer on_message_at
answer_lem s (message m now) = by_start_lem (record s { last_heard = some now }) m now m.start
answer_lem s (at_tick now) = tick_lem s now

asks-append : (a b : List Action) → asks (a ++ b) ≡ asks a + asks b
asks-append [] b = omega arith
asks-append (x ∷ a) b = omega (arith, asks-append a b)

-- The number of questions so far, by whether one was asked.
abbrev asked : Bool → ℕ
asked true = 1
asked false = 0

run_lem :
    (s : SourceSession) (cs : List Call)
    → (s.asked_caps ≡ true → is_some s.m1_answered ≡ true)
    → let (s', out) = run s cs in
      (asked s.asked_caps + asks out ≡ asked s'.asked_caps)
      × (s'.asked_caps ≡ true → is_some s'.m1_answered ≡ true)
unfolding run
run_lem s [] h = (omega arith, h)
run_lem s (c ∷ cs) h =
    let (s1, out) = answer s c in
    let ih = run_lem s1 cs in
    rw (asks-append out (run s1 cs).1) (elim (answer_lem s c) [
      | inl (same, none_asked, keeps) ↦
          let (count, later) = ih (λ e. keeps (h (sym same ∙ e))) in
          (omega (arith, count, ap asked same, none_asked), later)
      | inr (before, after, once, known, kept) ↦
          let (count, later) = ih (λ e. kept) in
          (omega (arith, count, ap asked before, ap asked after, once), later)
    ])

asked-le : (b : Bool) → asked b ≤ 1
asked-le b = ground arith

asked-eq : (b : Bool) → asked b ≡ 1 → b ≡ true
asked-eq b = ground arith

-- However messages and ticks follow on the start of a session, the display is asked for its
-- capabilities at most once, and only where it has answered M1.
pub run-asks :
    (cfg : SourceConfig) (cs : List Call)
    → let (s, out) = run (start (new cfg)).0 cs in
      (asks ((start (new cfg)).1 ++ out) ≤ 1)
      × (asks ((start (new cfg)).1 ++ out) ≡ 1 → is_some s.m1_answered ≡ true)
unfolding start new expect is_ask request
run-asks cfg cs =
    let s0 = (start (new cfg)).0 in
    let (count, known) = run_lem s0 cs (λ e. cc) in
    let last = (run s0 cs).0.asked_caps in
    (omega (arith, count, asked-le last), λ e. known (asked-eq last (omega (arith, count, e))))
