-- ===== src/Miracast/Rtsp.antt =====
-- crates/castr-miracast/src/rtsp.rs: RTSP messages, parsed and printed. The negotiation of the
-- sink, in the same file of the source, is Negotiation.
pub mod Lines
pub mod RoundTrip
pub mod Negotiation
use castr.Base.{
  ℕ, ◌+◌, Option, none, some, List, [], ◌∷◌, ◌++◌, ltb, leb, ◌==◌, if◌then◌else◌, Result, ok, err,
  length, take, drop, is_empty, get_or,
}
use castr.Base.Bytes.{Bytes}
use castr.Base.Text.{ascii, decimal}
use castr.Base.Strings.{
  strip_prefix, starts_with, is_utf8, trim, split_once, split, split_crlf, eq_ignore_ascii_case,
  parse_unsigned, u16_bound, u32_bound, u64_bound,
}

abbrev pub max_header_bytes : ℕ
max_header_bytes = 65536

abbrev pub max_body_bytes : ℕ
max_body_bytes = 1048576

-- The variants `Request` and `Response`: the functions below have these names.
pub data StartLine : Type 0 where
  request_line : (method uri : Bytes) → StartLine
  status_line : (status : ℕ) (reason : Bytes) → StartLine

abbrev pub Headers : Type 0
Headers = List (Bytes × Bytes)

pub record Message : Type 0 where
  pub start : StartLine
  pub headers : Headers
  pub body : Bytes

pub data ParseError : Type 0 where
  malformed_start_line : Bytes → ParseError
  malformed_header : Bytes → ParseError
  bad_content_length : Bytes → ParseError
  message_too_large : Bytes → ParseError
  not_utf8 : ParseError

unfoldable pub find_header : Headers → Bytes → Option Bytes
find_header [] name = none
find_header ((k, v) ∷ rest) name =
    if eq_ignore_ascii_case k name then some v else find_header rest name

abbrev pub header : Message → Bytes → Option Bytes
header m name = find_header m.headers name

unfoldable pub cseq : Message → Option ℕ
cseq m = elim (header m (ascii "cseq")) [
  | none ↦ none
  | some v ↦ parse_unsigned 10 u32_bound (trim v)
]

abbrev pub crlf : Bytes
crlf = 13 ∷ 10 ∷ []

unfoldable pub format_start : StartLine → Bytes
format_start (request_line method uri) = method ++ (32 ∷ (uri ++ ascii " RTSP/1.0"))
format_start (status_line status reason) = ascii "RTSP/1.0 " ++ (decimal status ++ (32 ∷ reason))

abbrev pub format_headers : Headers → Bytes
format_headers [] = []
format_headers ((k, v) ∷ rest) = k ++ (58 ∷ 32 ∷ (v ++ (crlf ++ format_headers rest)))

-- The headers that `format` adds for a body.
unfoldable pub content_headers : Bytes → Headers
content_headers body =
    if is_empty body
    then []
    else (ascii "Content-Type", ascii "text/parameters")
      ∷ (ascii "Content-Length", decimal (length body))
      ∷ []

unfoldable pub format : Message → Bytes
format m =
    format_start m.start
    ++ (crlf ++ (format_headers (m.headers ++ content_headers m.body) ++ (crlf ++ m.body)))

unfoldable pub find_double_crlf : Bytes → Option ℕ
find_double_crlf [] = none
find_double_crlf (c ∷ s) =
    let rest = find_double_crlf s in
    if starts_with (13 ∷ 10 ∷ 13 ∷ 10 ∷ []) (c ∷ s)
    then some 0
    else elim rest [ none ↦ none | some i ↦ some (i + 1) ]

-- `rest.split_once(' ').unwrap_or((rest, ""))`
unfoldable pub split_status : Bytes → Bytes × Bytes
split_status rest = elim (split_once 32 rest) [ none ↦ (rest, []) | some p ↦ p ]

unfoldable pub parse_status_line : Bytes → Bytes × Bytes → Result StartLine ParseError
parse_status_line line (code, reason) = elim (parse_unsigned 10 u16_bound code) [
  | none ↦ err (malformed_start_line line)
  | some status ↦ ok (status_line status reason)
]

-- The parts of the line: the method, the address and the version, and what else there is.
parse_request_line : Bytes → List Bytes → Result StartLine ParseError
parse_request_line line (method ∷ uri ∷ version ∷ more) =
    if is_empty method
    then err (malformed_start_line line)
    else if starts_with (ascii "RTSP/") version
    then ok (request_line method uri)
    else err (malformed_start_line line)
parse_request_line line _ = err (malformed_start_line line)

unfoldable pub parse_start_line : Bytes → Result StartLine ParseError
unfolding split_status parse_status_line parse_request_line
parse_start_line line = elim (strip_prefix (ascii "RTSP/1.0 ") line) [
  | some rest ↦ parse_status_line line (split_status rest)
  | none ↦ parse_request_line line (split 32 line)
]

unfoldable pub onto_headers : Bytes × Bytes → Result Headers ParseError → Result Headers ParseError
onto_headers h (ok hs) = ok (h ∷ hs)
onto_headers h (err e) = err e

unfoldable pub parse_headers : List Bytes → Result Headers ParseError
unfolding onto_headers
parse_headers [] = ok []
parse_headers (line ∷ ls) =
    let rest = parse_headers ls in
    if is_empty line then rest else elim (split_once 58 line) [
      | none ↦ err (malformed_header line)
      | some (k, v) ↦ onto_headers (trim k, trim v) rest
    ]

unfoldable pub content_length : Headers → Result ℕ ParseError
content_length headers = elim (find_header headers (ascii "content-length")) [
  | none ↦ ok 0
  | some v ↦ elim (parse_unsigned 10 u64_bound (trim v)) [
    | none ↦ err (bad_content_length v)
    | some n ↦ ok n
  ]
]

abbrev pub Parsed : Type 0
Parsed = Result (Option (Message × ℕ)) ParseError

unfoldable pub parse_body : Bytes → ℕ → StartLine → Headers → ℕ → Parsed
parse_body buf body_start start headers body_len =
    let end = body_start + body_len in
    let body = take body_len (drop body_start buf) in
    if ltb max_body_bytes body_len
    then err (message_too_large (ascii "body"))
    else if leb u64_bound end
    then err (message_too_large (ascii "body"))
    else if ltb (length buf) end
    then ok none
    else if is_utf8 body
    then ok (some (record { start = start; headers = headers; body = body }, end))
    else err not_utf8

unfoldable pub parse_sized : Bytes → ℕ → StartLine → Headers → Result ℕ ParseError → Parsed
parse_sized buf body_start start headers (ok n) = parse_body buf body_start start headers n
parse_sized buf body_start start headers (err e) = err e

unfoldable pub parse_with_headers : Bytes → ℕ → StartLine → Result Headers ParseError → Parsed
unfolding parse_sized parse_body
parse_with_headers buf body_start start (ok headers) =
    parse_sized buf body_start start headers (content_length headers)
parse_with_headers buf body_start start (err e) = err e

unfoldable pub parse_with_start : Bytes → ℕ → List Bytes → Result StartLine ParseError → Parsed
unfolding parse_with_headers
parse_with_start buf body_start ls (ok start) =
    parse_with_headers buf body_start start (parse_headers ls)
parse_with_start buf body_start ls (err e) = err e

-- A message whose head is the first `head_end` bytes.
unfoldable pub parse_head : Bytes → ℕ → Parsed
unfolding parse_with_start
parse_head buf head_end =
    let head = take head_end buf in
    let ls = split_crlf head in
    if ltb max_header_bytes head_end
    then err (message_too_large (ascii "header"))
    else if is_utf8 head
    then parse_with_start buf (head_end + 4) (drop 1 ls) (parse_start_line (get_or ls 0 []))
    else err not_utf8

unfoldable pub parse : Bytes → Parsed
parse buf = elim (find_double_crlf buf) [
  | none ↦
      if ltb max_header_bytes (length buf)
      then err (message_too_large (ascii "header"))
      else ok none
  | some head_end ↦ parse_head buf head_end
]

unfoldable pub reason_for : ℕ → Bytes
reason_for status =
    if status == 200
    then ascii "OK"
    else if status == 400
    then ascii "Bad Request"
    else if status == 404
    then ascii "Not Found"
    else if status == 454
    then ascii "Session Not Found"
    else if status == 503
    then ascii "Service Unavailable"
    else ascii "Error"

unfoldable pub response : ℕ → ℕ → Bytes → Message
response status number body = record {
  start = status_line status (reason_for status);
  headers = (ascii "CSeq", decimal number) ∷ [];
  body = body;
}

unfoldable pub request : Bytes → Bytes → ℕ → Bytes → Message
request method uri number body = record {
  start = request_line method uri;
  headers = (ascii "CSeq", decimal number) ∷ [];
  body = body;
}

-- `m.headers.push((k, v))`
abbrev pub with_header : Message → Bytes → Bytes → Message
with_header m k v = record m { headers = m.headers ++ ((k, v) ∷ []) }
