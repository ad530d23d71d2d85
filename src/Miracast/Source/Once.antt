-- ===== src/Miracast/Source/Once.antt =====
-- An answer counts once.
use castr.Base.{
  ℕ, ◌<◌, ◌≡◌, refl, sym, ap, ◌∙◌, subst, arith, Option, none, some, List, [], ◌∷◌, All,
  Option-cases, inl, inr,
}
use castr.Base.Bytes.{Bytes}
use castr.Base.Maps.{lookup, remove, lookup-insert, lookup-remove}
use castr.Miracast.Rtsp.{StartLine, status_line, Message, cseq}
use castr.Miracast.Rtsp.Negotiation.{Action}
use castr.Miracast.Source.{SourceSession, Pending, m1, m3, m4, m5, keepalive, teardown_sent, expect}
use castr.Miracast.Source.Answers.{on_capabilities, on_answer, answer_pending, on_response}
use castr.Miracast.Source.Steps.{by_start, on_message_at}

-- Every request that waits for an answer has a number below the next one.
abbrev pub IsNumbered : SourceSession → Type 0
IsNumbered s = All (λ e. e.0 < s.next_cseq) s.pending

lookup-below :
    (bound number : ℕ) (p : Pending) (pending : List (ℕ × Pending))
    → All (λ e. e.0 < bound) pending
    → lookup number pending ≡ some p
    → number < bound
unfolding lookup
lookup-below bound number p [] a h = cc
lookup-below bound number p ((k, q) ∷ rest) a h = ground (arith, lookup-below bound number p rest)

-- A number that no request has, and that is not the next, is still free after an answer is handled.
abbrev StaysFree : SourceSession → ℕ → SourceSession × List Action → Type 0
StaysFree s number (s', out) = lookup number s'.pending ≡ none

expect-free :
    (s : SourceSession) (p : Pending) (number : ℕ)
    → number < s.next_cseq
    → lookup number s.pending ≡ none
    → lookup number (expect s p).0.pending ≡ none
unfolding expect
expect-free s p number h f = ground (arith, lookup-insert s.next_cseq number p s.pending)

on_capabilities-free :
    (s : SourceSession) (m : Message) (number : ℕ)
    → number < s.next_cseq
    → lookup number s.pending ≡ none
    → StaysFree s number (on_capabilities s m)
unfolding on_capabilities expect
on_capabilities-free s m number h f = ground (arith, lookup-insert s.next_cseq number m4 s.pending)

on_answer-free :
    (s : SourceSession) (p : Pending) (m : Message) (now number : ℕ)
    → number < s.next_cseq
    → lookup number s.pending ≡ none
    → StaysFree s number (on_answer s p m now)
unfolding on_answer expect
on_answer-free s m1 m now number h f = f
on_answer-free s m3 m now number h f = on_capabilities-free s m number h f
on_answer-free s m4 m now number h f = ground (arith, lookup-insert s.next_cseq number m5 s.pending)
on_answer-free s m5 m now number h f = f
on_answer-free s keepalive m now number h f = f
on_answer-free s teardown_sent m now number h f = f

answer_pending-free :
    (s : SourceSession) (number : ℕ) (o : Option Pending) (status : ℕ) (m : Message) (now : ℕ)
    → IsNumbered s
    → lookup number s.pending ≡ o
    → StaysFree s number (answer_pending s number o status m now)
unfolding answer_pending
answer_pending-free s number none status m now v h = h
answer_pending-free s number (some p) status m now v h =
    let s1 : SourceSession = record s { pending = remove number s.pending } in
    let f : lookup number s1.pending ≡ none =
      ground (arith, lookup-remove number number s.pending) in
    let b = lookup-below s.next_cseq number p s.pending v h in
    ground (arith, on_answer-free s1 p m now number b f, f)

answer_pending-none :
    (s : SourceSession) (number status : ℕ) (m : Message) (now : ℕ)
    → answer_pending s number none status m now ≡ (s, [])
unfolding answer_pending
answer_pending-none s number status m now = refl

pub on_response-number :
    (s : SourceSession) (status : ℕ) (m : Message) (now number : ℕ)
    → cseq m ≡ some number
    → on_response s status m now ≡ answer_pending s number (lookup number s.pending) status m now
unfolding on_response
on_response-number s status m now number e = rw (on_response, e) refl

pub on_response-silent :
    (s : SourceSession) (status : ℕ) (m : Message) (now : ℕ)
    → cseq m ≡ none
    → on_response s status m now ≡ (s, [])
unfolding on_response
on_response-silent s status m now e = rw (on_response, e) refl

abbrev heard : SourceSession → ℕ → SourceSession
heard s now = record s { last_heard = some now }

on_response-twice :
    (s : SourceSession) (status : ℕ) (m : Message) (now later : ℕ)
    → IsNumbered s
    → let s1 = (on_response s status m now).0 in
      on_response (heard s1 later) status m later ≡ (heard s1 later, [])
on_response-twice s status m now later v = elim (Option-cases (cseq m)) [
  | inl e ↦ on_response-silent (heard (on_response s status m now).0 later) status m later e
  | inr (number, e) ↦
      let s1 = (on_response s status m now).0 in
      let free : lookup number s1.pending ≡ none =
        ap (λ x. lookup number (x.0).pending) (on_response-number s status m now number e)
        ∙ answer_pending-free s number (lookup number s.pending) status m now v refl in
      on_response-number (heard s1 later) status m later number e
      ∙ (ap (λ o. answer_pending (heard s1 later) number o status m later) free
          ∙ answer_pending-none (heard s1 later) number status m later)
]

-- An answer that is handled and comes again, at whatever time, is only heard: nothing is sent, and
-- nothing else changes.
pub on_message_at-twice :
    (s : SourceSession) (m : Message) (status : ℕ) (reason : Bytes) (now later : ℕ)
    → IsNumbered s
    → m.start ≡ status_line status reason
    → let s1 = (on_message_at s m now).0 in
      on_message_at s1 m later ≡ (record s1 { last_heard = some later }, [])
unfolding on_message_at by_start
on_message_at-twice s m status reason now later v e =
    subst
      (λ (st : StartLine).
        let s1 = (by_start (heard s now) m now st).0 in
        by_start (heard s1 later) m later st ≡ (heard s1 later, []))
      (sym e) (on_response-twice (heard s now) status m now later v)
