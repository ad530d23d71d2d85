-- ===== src/Miracast/Sink/Stream.antt =====
-- Printed messages on the connection of the sink.
use castr.Base.{
  ℕ, zero, suc, ◌<◌, ◌≡◌, refl, ap, ◌∙◌, arith, true, false, none, List, [], ◌∷◌, ◌++◌, ok, All,
  length, drop, length-append, drop-length_append,
}
use castr.Base.Bytes.{Bytes}
use castr.Miracast.Rtsp.{Message, format, parse, find_double_crlf}
use castr.Miracast.Rtsp.RoundTrip.{IsPrintable, all_headers, length-format, parse-format}
use castr.Miracast.Rtsp.Negotiation.{Action, send, play, bitrate, keyframe, teardown}
use castr.Miracast.Rtsp.Negotiation.Messages.{on_message_at}
use castr.Miracast.Sink.{Session, SinkEvent, act, apply, on_one, rtsp_loop, on_rtsp_bytes_at}
use castr.Miracast.Sink.Messages.{turn, rtsp_loop-turn}

abbrev with_buf : Session → Bytes → Session
with_buf s b = record s { rtsp_buf = b }

-- The message as it is parsed: with the headers that printing adds.
abbrev pub received : Message → Message
received m = record m { headers = all_headers m }

-- One message after the other, each through the negotiation, whose actions are done before the
-- next.
unfoldable pub on_each : Session → List Message → ℕ → Session × List SinkEvent
on_each s [] now = (s, [])
on_each s (m ∷ ms) now =
    let (s1, out) = act s (on_message_at s.negotiation (received m) now) in
    let (s2, more) = on_each s1 ms now in (s2, out ++ more)

abbrev pub stream_of : List Message → Bytes
stream_of [] = []
stream_of (m ∷ ms) = format m ++ stream_of ms

apply-with_buf :
    (s : Session) (b : Bytes) (actions : List Action)
    → apply (with_buf s b) actions ≡ (with_buf (apply s actions).0 b, (apply s actions).1)
unfolding apply
apply-with_buf s b [] = refl
apply-with_buf s b (send m ∷ rest) = rw (apply-with_buf s b rest) refl
apply-with_buf s b (keyframe ∷ rest) = apply-with_buf s b rest
apply-with_buf s b (bitrate kbps ∷ rest) = apply-with_buf s b rest
apply-with_buf s b (play ∷ rest) = rw (apply-with_buf (record s { playing = true }) b rest) refl
apply-with_buf s b (teardown reason ∷ rest) =
    rw (apply-with_buf (record s { playing = false }) b rest) refl

on_one-with_buf :
    (s : Session) (b : Bytes) (m : Message) (used now : ℕ)
    → on_one (with_buf s b) m used now ≡ (
        let (s1, out) = act s (on_message_at s.negotiation m now) in
        (with_buf s1 (drop used b), out))
unfolding on_one
on_one-with_buf s b m used now =
    let (n, actions) = on_message_at s.negotiation m now in
    apply-with_buf (record s { negotiation = n }) (drop used b) actions

parse-nil : parse [] ≡ ok none
unfolding parse find_double_crlf
parse-nil = refl

-- The loop after one message.
abbrev onward : ℕ → ℕ → Session × List SinkEvent → Session × List SinkEvent
onward fuel now k = ((rtsp_loop fuel k.0 now).0, k.1 ++ (rtsp_loop fuel k.0 now).1)

rtsp_loop-stream :
    (ms : List Message) (fuel : ℕ) (s : Session) (now : ℕ)
    → All IsPrintable ms
    → length (stream_of ms) < fuel
    → rtsp_loop fuel (with_buf s (stream_of ms)) now
      ≡ (with_buf (on_each s ms now).0 [], (on_each s ms now).1)
unfolding on_each
rtsp_loop-stream ms zero s now a h = absurd (omega arith)
rtsp_loop-stream [] (suc fuel) s now a h =
    rtsp_loop-turn fuel (with_buf s []) now ∙ ap (turn fuel (with_buf s []) now) parse-nil
rtsp_loop-stream (m ∷ ms) (suc fuel) s now a h =
    let rest = stream_of ms in
    let whole = with_buf s (format m ++ rest) in
    let used = length (format m) in
    let (s1, out) = act s (on_message_at s.negotiation (received m) now) in
    let ih =
      rtsp_loop-stream ms fuel s1 now a.1
        (omega (arith, h, length-append (format m) rest, length-format m)) in
    rtsp_loop-turn fuel whole now
    ∙ (ap (turn fuel whole now) (parse-format m rest a.0)
        ∙ (ap (onward fuel now) (
              on_one-with_buf s (format m ++ rest) (received m) used now
              ∙ ap (λ b. (with_buf s1 b, out)) (drop-length_append (format m) rest))
            ∙ ap (λ k. (k.0, out ++ k.1)) ih))

-- Messages that are printed one after the other and arrive together are each handled once, in their
-- order and unchanged but for the headers of the body, and nothing is left in the buffer.
pub on_rtsp_bytes_at-stream :
    (s : Session) (ms : List Message) (now : ℕ)
    → s.rtsp_buf ≡ []
    → All IsPrintable ms
    → on_rtsp_bytes_at s (stream_of ms) now
      ≡ (record (on_each s ms now).0 { rtsp_buf = [] }, (on_each s ms now).1)
unfolding on_rtsp_bytes_at
on_rtsp_bytes_at-stream s ms now e a =
    ap (λ b. rtsp_loop (suc (length (b ++ stream_of ms))) (with_buf s (b ++ stream_of ms)) now) e
    ∙ rtsp_loop-stream ms (suc (length (stream_of ms))) s now a (omega arith)
