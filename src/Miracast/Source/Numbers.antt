-- ===== src/Miracast/Source/Numbers.antt =====
-- The numbers of the source's requests.
use castr.Base.{
  ℕ, ◌+◌, ◌<◌, ◌≤◌, sym, subst, arith, Option, none, some, List, [], ◌∷◌, All, All-map, ◌==◌,
  Option-cases, inl, inr, Bool-cases,
}
use castr.Base.Bytes.{Bytes}
use castr.Base.Maps.{lookup, insert, remove}
use castr.Base.Words.{add32}
use castr.Miracast.Rtsp.{StartLine, request_line, status_line, Message, cseq}
use castr.Miracast.Rtsp.Negotiation.{Action}
use castr.Miracast.Source.{
  SourceSession, Pending, m1, m3, m4, m5, keepalive, teardown_sent, expect, ask_capabilities,
}
use castr.Miracast.Source.Requests.{on_request}
use castr.Miracast.Source.Answers.{on_capabilities, on_answer, answer_pending, on_response}
use castr.Miracast.Source.Steps.{by_start, on_message_at, tick}
use castr.Miracast.Source.Order.{Call, message, at_tick, answer}
use castr.Miracast.Source.Once.{IsNumbered, on_response-silent, on_response-number}

Below : ℕ → List (ℕ × Pending) → Type 0
Below b pending = All (λ e. e.0 < b) pending

Below-insert :
    (b key : ℕ) (p : Pending) (pending : List (ℕ × Pending))
    → key < b
    → Below b pending
    → Below b (insert key p pending)
unfolding insert Below
Below-insert b key p [] h a = (h, tt)
Below-insert b key p ((k, q) ∷ rest) h a = ground (arith, Below-insert b key p rest h)

Below-remove :
    (b key : ℕ) (pending : List (ℕ × Pending)) → Below b pending → Below b (remove key pending)
unfolding remove Below
Below-remove b key [] a = tt
Below-remove b key ((k, q) ∷ rest) a = ground (arith, Below-remove b key rest)

Below-le : (b c : ℕ) (pending : List (ℕ × Pending)) → b ≤ c → Below b pending → Below c pending
unfolding Below
Below-le b c pending h a = All-map (λ e. e.0 < b) (λ e. e.0 < c) (λ e g. omega arith) pending a

-- A request takes the next number, as long as there is one in 32 bits.
next-Below :
    (s : SourceSession) (p : Pending)
    → s.next_cseq + 1 < 4294967296
    → Below s.next_cseq s.pending
    → Below (add32 s.next_cseq 1) (insert s.next_cseq p s.pending)
next-Below s p h a =
    Below-insert (add32 s.next_cseq 1) s.next_cseq p s.pending (omega arith)
      (Below-le s.next_cseq (add32 s.next_cseq 1) s.pending (omega arith) a)

-- The numbers of a state that a step leaves.
abbrev Numbered : SourceSession × List Action → Type 0
Numbered (s, out) = Below s.next_cseq s.pending

on_request-Numbered :
    (s : SourceSession) (method : Bytes) (m : Message)
    → s.next_cseq + 1 < 4294967296
    → Below s.next_cseq s.pending
    → Numbered (on_request s method m)
unfolding on_request ask_capabilities expect
on_request-Numbered s method m h a = ground (arith, a, next-Below s m3 h a)

on_capabilities-Numbered :
    (s : SourceSession) (m : Message)
    → s.next_cseq + 1 < 4294967296
    → Below s.next_cseq s.pending
    → Numbered (on_capabilities s m)
unfolding on_capabilities expect
on_capabilities-Numbered s m h a = ground (arith, a, next-Below s m4 h a)

on_answer-Numbered :
    (s : SourceSession) (p : Pending) (m : Message) (now : ℕ)
    → s.next_cseq + 1 < 4294967296
    → Below s.next_cseq s.pending
    → Numbered (on_answer s p m now)
unfolding on_answer expect
on_answer-Numbered s m1 m now h a = a
on_answer-Numbered s m3 m now h a = on_capabilities-Numbered s m h a
on_answer-Numbered s m4 m now h a = next-Below s m5 h a
on_answer-Numbered s m5 m now h a = a
on_answer-Numbered s keepalive m now h a = a
on_answer-Numbered s teardown_sent m now h a = a

answer_pending-Numbered :
    (s : SourceSession) (number : ℕ) (o : Option Pending) (status : ℕ) (m : Message) (now : ℕ)
    → s.next_cseq + 1 < 4294967296
    → Below s.next_cseq s.pending
    → Numbered (answer_pending s number o status m now)
unfolding answer_pending
answer_pending-Numbered s number none status m now h a = a
answer_pending-Numbered s number (some p) status m now h a =
    let b = Below-remove s.next_cseq number s.pending a in
    elim (Bool-cases (status == 200)) [
      | inl good ↦
          rw (good)
            (on_answer-Numbered (record s { pending = remove number s.pending }) p m now h b)
      | inr bad ↦ rw (bad) b
    ]

on_response-Numbered :
    (s : SourceSession) (status : ℕ) (m : Message) (now : ℕ)
    → s.next_cseq + 1 < 4294967296
    → Below s.next_cseq s.pending
    → Numbered (on_response s status m now)
on_response-Numbered s status m now h a = elim (Option-cases (cseq m)) [
  | inl e ↦ subst Numbered (sym (on_response-silent s status m now e)) a
  | inr (number, e) ↦
      subst Numbered (sym (on_response-number s status m now number e))
        (answer_pending-Numbered s number (lookup number s.pending) status m now h a)
]

by_start-Numbered :
    (s : SourceSession) (m : Message) (now : ℕ) (st : StartLine)
    → s.next_cseq + 1 < 4294967296
    → Below s.next_cseq s.pending
    → Numbered (by_start s m now st)
unfolding by_start
by_start-Numbered s m now (request_line method uri) h a = on_request-Numbered s method m h a
by_start-Numbered s m now (status_line status reason) h a = on_response-Numbered s status m now h a

tick-Numbered :
    (s : SourceSession) (now : ℕ)
    → s.next_cseq + 1 < 4294967296
    → Below s.next_cseq s.pending
    → Numbered (tick s now)
unfolding tick ask_capabilities expect
tick-Numbered s now h a = ground (arith, a, next-Below s m3 h a, next-Below s keepalive h a)

-- A step of the session keeps every number that waits for an answer below the next one, while the
-- numbers last: no answer can be taken for that of a request that is still to come.
pub answer-IsNumbered :
    (s : SourceSession) (c : Call)
    → s.next_cseq + 1 < 4294967296
    → IsNumbered s
    → IsNumbered (answer s c).0
unfolding answer on_message_at Below
answer-IsNumbered s (message m now) h a =
    by_start-Numbered (record s { last_heard = some now }) m now m.start h a
answer-IsNumbered s (at_tick now) h a = tick-Numbered s now h a
