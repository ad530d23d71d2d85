-- ===== src/Miracast/Sink/Messages.antt =====
-- The sink's loop over the messages in its buffer.
use castr.Base.{
  ℕ, zero, suc, ◌+◌, ◌≤◌, ◌<◌, ◌≡◌, refl, sym, ap, ◌∙◌, subst, arith, true, false, Option, none,
  some, List, [], ◌∷◌, ◌++◌, Result, ok, err, length, take, get_or, ltb, if◌then◌else◌, drop,
  length-drop,
}
use castr.Base.Bytes.{Bytes}
use castr.Miracast.Rtsp.{
  StartLine, Headers, Message, ParseError, message_too_large, Parsed, max_header_bytes,
  find_double_crlf, parse_start_line, parse_headers, content_length, parse_body, parse_sized,
  parse_with_headers, parse_with_start, parse_head, parse,
}
use castr.Base.Text.{ascii}
use castr.Base.Strings.{split_crlf}
use castr.Miracast.Sink.{Session, SinkEvent, session_ended, apply, on_one, rtsp_loop}
use castr.Miracast.Rtsp.Negotiation.Messages.{on_message_at}
use castr.Miracast.Rtsp.Negotiation.{Action, send, play, bitrate, keyframe, teardown}

-- What is parsed off a buffer has four bytes at least, and no more than the buffer has.
abbrev IsBounded : Bytes → Parsed → Type 0
IsBounded buf (ok (some (m, used))) = (4 ≤ used) × (used ≤ length buf)
IsBounded buf (ok none) = Unit
IsBounded buf (err e) = Unit

parse_body-IsBounded :
    (buf : Bytes) (body_start : ℕ) (start : StartLine) (hs : Headers) (n : ℕ)
    → 4 ≤ body_start
    → IsBounded buf (parse_body buf body_start start hs n)
unfolding parse_body
parse_body-IsBounded buf body_start start hs n h = ground arith

parse_sized-IsBounded :
    (buf : Bytes) (body_start : ℕ) (start : StartLine) (hs : Headers) (r : Result ℕ ParseError)
    → 4 ≤ body_start
    → IsBounded buf (parse_sized buf body_start start hs r)
unfolding parse_sized
parse_sized-IsBounded buf body_start start hs (ok n) h =
    parse_body-IsBounded buf body_start start hs n h
parse_sized-IsBounded buf body_start start hs (err e) h = tt

parse_with_headers-IsBounded :
    (buf : Bytes) (body_start : ℕ) (start : StartLine) (r : Result Headers ParseError)
    → 4 ≤ body_start
    → IsBounded buf (parse_with_headers buf body_start start r)
unfolding parse_with_headers
parse_with_headers-IsBounded buf body_start start (ok hs) h =
    parse_sized-IsBounded buf body_start start hs (content_length hs) h
parse_with_headers-IsBounded buf body_start start (err e) h = tt

parse_with_start-IsBounded :
    (buf : Bytes) (body_start : ℕ) (ls : List Bytes) (r : Result StartLine ParseError)
    → 4 ≤ body_start
    → IsBounded buf (parse_with_start buf body_start ls r)
unfolding parse_with_start
parse_with_start-IsBounded buf body_start ls (ok start) h =
    parse_with_headers-IsBounded buf body_start start (parse_headers ls) h
parse_with_start-IsBounded buf body_start ls (err e) h = tt

parse_head-IsBounded : (buf : Bytes) (n : ℕ) → IsBounded buf (parse_head buf n)
unfolding parse_head
parse_head-IsBounded buf n =
    let ls = split_crlf (take n buf) in
    ground (
      arith,
      parse_with_start-IsBounded buf (n + 4) (drop 1 ls) (parse_start_line (get_or ls 0 []))
          (omega arith),
    )

parse-IsBounded : (buf : Bytes) → IsBounded buf (parse buf)
unfolding parse
parse-IsBounded buf = go (find_double_crlf buf)
  where
    go :
        (o : Option ℕ)
        → IsBounded buf (elim o [
          | none ↦
              if ltb max_header_bytes (length buf)
              then err (message_too_large (ascii "header"))
              else ok none
          | some head_end ↦ parse_head buf head_end
        ])
    go none = ground arith
    go (some n) = parse_head-IsBounded buf n

apply-rtsp_buf : (s : Session) (actions : List Action) → (apply s actions).0.rtsp_buf ≡ s.rtsp_buf
unfolding apply
apply-rtsp_buf s [] = refl
apply-rtsp_buf s (send m ∷ rest) = apply-rtsp_buf s rest
apply-rtsp_buf s (keyframe ∷ rest) = apply-rtsp_buf s rest
apply-rtsp_buf s (bitrate kbps ∷ rest) = apply-rtsp_buf s rest
apply-rtsp_buf s (play ∷ rest) = apply-rtsp_buf (record s { playing = true }) rest
apply-rtsp_buf s (teardown reason ∷ rest) = apply-rtsp_buf (record s { playing = false }) rest

abbrev pub turn : ℕ → Session → ℕ → Parsed → Session × List SinkEvent
turn fuel s now (ok (some (m, used))) =
    let (s1, out) = on_one s m used now in
    let (s2, more) = rtsp_loop fuel s1 now in (s2, out ++ more)
turn fuel s now (ok none) = (s, [])
turn fuel s now (err e) = (record s { rtsp_buf = [] }, session_ended (ascii "malformed RTSP") ∷ [])

pub rtsp_loop-turn :
    (fuel : ℕ) (s : Session) (now : ℕ)
    → rtsp_loop (suc fuel) s now ≡ turn fuel s now (parse s.rtsp_buf)
unfolding rtsp_loop
rtsp_loop-turn fuel s now = go (parse s.rtsp_buf)
  where
    go :
        (r : Parsed)
        → (elim r [
          | ok (some (m, used)) ↦
              let (s1, out) = on_one s m used now in
              let (s2, more) = rtsp_loop fuel s1 now in (s2, out ++ more)
          | ok none ↦ (s, [])
          | err e ↦ (record s { rtsp_buf = [] }, session_ended (ascii "malformed RTSP") ∷ [])
        ])
          ≡ turn fuel s now r
    go (ok (some (m, used))) = refl
    go (ok none) = refl
    go (err e) = refl

on_one-rtsp_buf :
    (s : Session) (m : Message) (used now : ℕ)
    → (on_one s m used now).0.rtsp_buf ≡ drop used s.rtsp_buf
unfolding on_one
on_one-rtsp_buf s m used now =
    let (n, actions) = on_message_at s.negotiation m now in
    apply-rtsp_buf (record s { rtsp_buf = drop used s.rtsp_buf; negotiation = n }) actions

turn-length :
    (fuel more : ℕ) (s : Session) (now : ℕ)
    → ((s1 : Session)
        → length s1.rtsp_buf < fuel
        → rtsp_loop (fuel + more) s1 now ≡ rtsp_loop fuel s1 now)
    → (r : Parsed) → IsBounded s.rtsp_buf r
    → length s.rtsp_buf < suc fuel
    → turn (fuel + more) s now r ≡ turn fuel s now r
turn-length fuel more s now ih (ok none) b h = refl
turn-length fuel more s now ih (err e) b h = refl
turn-length fuel more s now ih (ok (some (m, used))) b h =
    ap (λ x. (x.0, (on_one s m used now).1 ++ x.1))
      (ih (on_one s m used now).0 (
        subst (λ l. length l < fuel) (sym (on_one-rtsp_buf s m used now))
          (omega (arith, b, h, length-drop used s.rtsp_buf))))

-- With more fuel than the buffer has bytes, the loop over its messages comes to the same end: it
-- does not stop for want of fuel.
pub rtsp_loop-length :
    (fuel more : ℕ) (s : Session) (now : ℕ)
    → length s.rtsp_buf < fuel
    → rtsp_loop (fuel + more) s now ≡ rtsp_loop fuel s now
rtsp_loop-length zero more s now h = absurd (omega arith)
rtsp_loop-length (suc fuel) more s now h =
    let q : suc fuel + more ≡ suc (fuel + more) = omega arith in
    ap (λ (k : ℕ). rtsp_loop k s now) q
    ∙ (rtsp_loop-turn (fuel + more) s now
        ∙ (turn-length fuel more s now (λ s1 l. rtsp_loop-length fuel more s1 now l)
              (parse s.rtsp_buf) (parse-IsBounded s.rtsp_buf) h
            ∙ sym (rtsp_loop-turn fuel s now)))
