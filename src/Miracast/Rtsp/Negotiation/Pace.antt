-- ===== src/Miracast/Rtsp/Negotiation/Pace.antt =====
-- How often the sink asks for a key frame, and when it gives a silent source up.
use castr.Base.{
  ℕ, ◌+◌, ◌≤◌, ◌≡◌, subst, refl, arith, false, Option, none, some, List, [], ◌∷◌, ◌++◌, unwrap_or,
}
use castr.Base.Bytes.{Bytes}
use castr.Miracast.Rtsp.{cseq, Message, StartLine, request_line, status_line}
use castr.Miracast.Wfd.{parse_parameter_body}
use castr.Miracast.Rtsp.Negotiation.{Action, Negotiation, idr_min_interval}
use castr.Miracast.Rtsp.Negotiation.Messages.{
  Reading, read_param, read_params, on_set_parameter, on_request, on_response, on_message_at,
  by_start,
}
use castr.Miracast.Rtsp.Negotiation.Clock.{tick, request_bitrate, request_idr, asked_lately}

-- What the session loop calls, each at a time.
pub data Call : Type 0 where
  message : Message → Call
  at_tick : Call
  ask_bitrate : ℕ → Call
  ask_idr : Call

abbrev pub answer : Negotiation → Call → ℕ → Negotiation × List Action
answer n (message m) now = on_message_at n m now
answer n at_tick now = tick n now
answer n (ask_bitrate kbps) now = request_bitrate n kbps
answer n ask_idr now = request_idr n now

-- The time of the call where it asks for a key frame and the request is sent.
abbrev idr_sent : Call → ℕ → List Action → List ℕ
idr_sent ask_idr now (a ∷ out) = now ∷ []
idr_sent _ now out = []

-- The times at which a run sends requests for key frames.
pub idr_times : Negotiation → List (Call × ℕ) → List ℕ
idr_times n [] = []
idr_times n ((c, now) ∷ cs) =
    let (n', out) = answer n c now in idr_sent c now out ++ idr_times n' cs

-- Each is the interval after the one before it at least, and the first after `last`.
abbrev pub IsSpaced : Option ℕ → List ℕ → Type 0
IsSpaced last [] = Unit
IsSpaced none (t ∷ ts) = IsSpaced (some t) ts
IsSpaced (some last) (t ∷ ts) = (last + idr_min_interval ≤ t) × IsSpaced (some t) ts

IsSpaced-nil : (last : Option ℕ) → IsSpaced last []
IsSpaced-nil last = tt

read_param-last_idr :
    (r : Reading) (p : Bytes × Bytes)
    → (read_param r p).negotiation.last_idr ≡ r.negotiation.last_idr
unfolding read_param
read_param-last_idr r (name, value) = ground arith

read_params-last_idr :
    (r : Reading) (ps : List (Bytes × Bytes))
    → (read_params r ps).negotiation.last_idr ≡ r.negotiation.last_idr
unfolding read_params
read_params-last_idr r [] = refl
read_params-last_idr r (p ∷ ps) =
    cc (read_params-last_idr (read_param r p) ps, read_param-last_idr r p)

on_set_parameter-last_idr :
    (n : Negotiation) (number : ℕ) (m : Message)
    → (on_set_parameter n number m).0.last_idr ≡ n.last_idr
unfolding on_set_parameter
on_set_parameter-last_idr n number m = ground (
  arith,
  read_params-last_idr (record { negotiation = n; trigger = none; refused = false })
      (parse_parameter_body m.body),
)

on_request-last_idr :
    (n : Negotiation) (method : Bytes) (m : Message)
    → (on_request n method m).0.last_idr ≡ n.last_idr
unfolding on_request
on_request-last_idr n method m =
    ground (arith, on_set_parameter-last_idr n (unwrap_or (cseq m) 0) m)

on_response-last_idr :
    (n : Negotiation) (status : ℕ) (m : Message) → (on_response n status m).0.last_idr ≡ n.last_idr
unfolding on_response
on_response-last_idr n status m = ground arith

by_start-last_idr :
    (n : Negotiation) (m : Message) (start : StartLine)
    → (by_start n m start).0.last_idr ≡ n.last_idr
unfolding by_start
by_start-last_idr n m (request_line method uri) = on_request-last_idr n method m
by_start-last_idr n m (status_line status reason) = on_response-last_idr n status m

on_message_at-last_idr :
    (n : Negotiation) (m : Message) (now : ℕ) → (on_message_at n m now).0.last_idr ≡ n.last_idr
unfolding on_message_at
on_message_at-last_idr n m now = by_start-last_idr (record n { last_heard = some now }) m m.start

tick-last_idr : (n : Negotiation) (now : ℕ) → (tick n now).0.last_idr ≡ n.last_idr
unfolding tick
tick-last_idr n now = ground arith

request_bitrate-last_idr :
    (n : Negotiation) (kbps : ℕ) → (request_bitrate n kbps).0.last_idr ≡ n.last_idr
unfolding request_bitrate
request_bitrate-last_idr n kbps = ground arith

IsSpaced-cons :
    (last : Option ℕ) (now : ℕ) (more : List ℕ)
    → asked_lately last now ≡ false
    → IsSpaced (some now) more
    → IsSpaced last (now ∷ more)
unfolding asked_lately
IsSpaced-cons none now more e s = s
IsSpaced-cons (some t) now more e s = (ground arith, s)

-- What a call for a key frame does to the times.
request_idr-IsSpaced :
    (n : Negotiation) (now : ℕ) (more : List ℕ)
    → IsSpaced (request_idr n now).0.last_idr more
    → IsSpaced n.last_idr (idr_sent ask_idr now (request_idr n now).1 ++ more)
unfolding request_idr
request_idr-IsSpaced n now more s = ground (arith, IsSpaced-cons n.last_idr now more)

-- In any run, whatever messages, ticks and requests for another bitrate come between them, two
-- requests for a key frame that the sink sends are half a second apart at least.
pub idr_times-IsSpaced :
    (n : Negotiation) (calls : List (Call × ℕ)) → IsSpaced n.last_idr (idr_times n calls)
unfolding idr_times
idr_times-IsSpaced n [] = IsSpaced-nil n.last_idr
idr_times-IsSpaced n ((message m, now) ∷ cs) =
    let n' = (on_message_at n m now).0 in
    subst (λ (l : Option ℕ). IsSpaced l (idr_times n' cs)) (on_message_at-last_idr n m now)
      (idr_times-IsSpaced n' cs)
idr_times-IsSpaced n ((at_tick, now) ∷ cs) =
    let n' = (tick n now).0 in
    subst (λ (l : Option ℕ). IsSpaced l (idr_times n' cs)) (tick-last_idr n now)
      (idr_times-IsSpaced n' cs)
idr_times-IsSpaced n ((ask_bitrate kbps, now) ∷ cs) =
    let n' = (request_bitrate n kbps).0 in
    subst (λ (l : Option ℕ). IsSpaced l (idr_times n' cs)) (request_bitrate-last_idr n kbps)
      (idr_times-IsSpaced n' cs)
idr_times-IsSpaced n ((ask_idr, now) ∷ cs) =
    let n' = (request_idr n now).0 in
    request_idr-IsSpaced n now (idr_times n' cs) (idr_times-IsSpaced n' cs)
