-- ===== src/Proto/Session/Laws.antt =====
-- What a session promises over any sequence of events.
use castr.Base.{
  ℕ, ◌-◌, ◌≤◌, ◌≡◌, ◌⊎◌, inl, inr, refl, arith, Option, none, some, ap, List, [], ◌∷◌, leb, ◌==◌,
  Bool-cases, unwrap_or,
}
use castr.Base.Bytes.{Bytes, bytes_eq, bytes_eq_iff}
use castr.Proto.Control.{
  Capabilities, ControlMessage, hello, hello_ack, start_stream, session_token, set_mode, stats,
  request_keyframe, pair_init, pair_resp, pair_proof, pair_ok, error, goodbye, protocol_version,
}
use castr.Proto.Session.{
  ReceiverState, awaiting_hello, streaming, disconnected, closed, Action, send, resumed,
  ReceiverSession, new, on_disconnect, on_message, ack, token_ttl_us,
}

-- What can happen to a session, with its time.
pub data Event : Type 0 where
  message : ControlMessage → ℕ → Event
  disconnect : ℕ → Event

unfoldable pub step : ReceiverSession → Event → ReceiverSession × List Action
step s (message m now_us) = on_message s m now_us
step s (disconnect now_us) = (on_disconnect s now_us, [])

unfoldable pub run : ReceiverSession → List Event → ReceiverSession
run s [] = s
run s (e ∷ es) = run (step s e).0 es

abbrev pub IsStreaming : ReceiverState → Type 0
IsStreaming (streaming p) = Unit
IsStreaming _ = ⊥

-- After a disconnection a greeting of any version resumes the session exactly if it is in the
-- protocol's version, carries the session's own token and comes within the time that the token
-- lives; the session then streams with its old parameters, and otherwise it is closed.
pub on_message-resume :
    (s : ReceiverSession) (since_us now_us version : ℕ) (name : Bytes) (resume_token : Option Bytes)
    → s.state ≡ disconnected since_us
    → ((version ≡ protocol_version)
        × (resume_token ≡ some s.token)
        × (now_us - since_us ≤ token_ttl_us)
        × (on_message s (hello version name resume_token) now_us
            ≡ (record s { state = streaming s.params }, send (ack s) ∷ resumed ∷ [])))
      ⊎ ((¬ (
            (version ≡ protocol_version)
            × (resume_token ≡ some s.token)
            × (now_us - since_us ≤ token_ttl_us)))
          × ((on_message s (hello version name resume_token) now_us).0.state ≡ closed))
unfolding on_message
on_message-resume s since_us now_us version name none e =
    inr ((λ h. absurd (cc (h.1))), ground arith)
on_message-resume s since_us now_us version name (some t) e =
    elim (Bool-cases (version == protocol_version)) [
      | inr w ↦ inr ((λ h. ground arith), ground arith)
      | inl w ↦ elim (Bool-cases (bytes_eq t s.token)) [
        | inl q ↦ elim (Bool-cases (leb (now_us - since_us) token_ttl_us)) [
          | inl l ↦
              inl (ground arith, ap some ((bytes_eq_iff t s.token).0 q), ground arith, ground arith)
          | inr l ↦ inr ((λ h. ground arith), ground arith)
        ]
        | inr q ↦ inr (
          (λ h. cc ((bytes_eq_iff t s.token).1 (ap (λ (o : Option Bytes). unwrap_or o t) h.1))),
          ground arith,
        )
      ]
    ]

step_closed : (s : ReceiverSession) (e : Event) → s.state ≡ closed → (step s e).0.state ≡ closed
unfolding step on_message on_disconnect
step_closed s (message (hello version name resume_token) now_us) h = ground arith
step_closed s (message (start_stream p) now_us) h = ground arith
step_closed s (message (set_mode m) now_us) h = ground arith
step_closed s (message (goodbye reason) now_us) h = refl
step_closed s (message (hello_ack name caps) now_us) h = h
step_closed s (message (session_token t) now_us) h = h
step_closed s (message request_keyframe now_us) h = h
step_closed s (message (stats x) now_us) h = h
step_closed s (message (pair_init x) now_us) h = h
step_closed s (message (pair_resp x) now_us) h = h
step_closed s (message (pair_proof x) now_us) h = h
step_closed s (message pair_ok now_us) h = h
step_closed s (message (error x m) now_us) h = h
step_closed s (disconnect now_us) h = ground arith

-- A closed session stays closed, whatever happens to it.
pub run-closed :
    (s : ReceiverSession) (es : List Event) → s.state ≡ closed → (run s es).state ≡ closed
unfolding run
run-closed s [] h = h
run-closed s (e ∷ es) h = run-closed (step s e).0 es (step_closed s e h)

-- A greeting in our version.
abbrev pub Greets : Event → Type 0
Greets (message (hello version name resume_token) now_us) = version ≡ protocol_version
Greets _ = ⊥

abbrev pub Greeted : List Event → Type 0
Greeted [] = ⊥
Greeted (e ∷ es) = Greets e ⊎ Greeted es

-- Not streaming, it takes a greeting to stream.
step_streams :
    (s : ReceiverSession) (e : Event)
    → ¬ IsStreaming s.state
    → IsStreaming (step s e).0.state
    → Greets e
unfolding step on_message on_disconnect
step_streams s (message (hello version name resume_token) now_us) n h = ground arith
step_streams s (message (start_stream p) now_us) n h = ground arith
step_streams s (message (set_mode m) now_us) n h = ground arith
step_streams s (message (goodbye reason) now_us) n h = h
step_streams s (message (hello_ack name caps) now_us) n h = n h
step_streams s (message (session_token t) now_us) n h = n h
step_streams s (message request_keyframe now_us) n h = n h
step_streams s (message (stats x) now_us) n h = n h
step_streams s (message (pair_init x) now_us) n h = n h
step_streams s (message (pair_resp x) now_us) n h = n h
step_streams s (message (pair_proof x) now_us) n h = n h
step_streams s (message pair_ok now_us) n h = n h
step_streams s (message (error x m) now_us) n h = n h
step_streams s (disconnect now_us) n h = ground arith

IsStreaming-dec : (s : ReceiverState) → IsStreaming s ⊎ (¬ IsStreaming s)
IsStreaming-dec (streaming p) = inl tt
IsStreaming-dec awaiting_hello = inr (λ x. x)
IsStreaming-dec (disconnected t) = inr (λ x. x)
IsStreaming-dec closed = inr (λ x. x)

ungreeted :
    (s : ReceiverSession) (es : List Event)
    → ¬ IsStreaming s.state
    → IsStreaming (run s es).state
    → Greeted es
unfolding run
ungreeted s [] n h = n h
ungreeted s (e ∷ es) n h = elim (IsStreaming-dec (step s e).0.state) [
  | inl y ↦ inl (step_streams s e n y)
  | inr m ↦ inr (ungreeted (step s e).0 es m h)
]

-- No stream without a greeting: a session that has not been greeted in the protocol's version does
-- not stream, whatever else has happened to it.
pub run-IsStreaming :
    (name : Bytes) (caps : Capabilities) (token : Bytes) (es : List Event)
    → IsStreaming (run (new name caps token) es).state
    → Greeted es
unfolding new
run-IsStreaming name caps token es h = ungreeted (new name caps token) es (λ x. x) h
