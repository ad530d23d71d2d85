-- ===== src/Miracast/Rtsp/Lines.antt =====
-- The head of a printed message as lines, and what the parser makes of each.
use castr.Base.{
  ℕ, ◌+◌, ◌<◌, ◌≡◌, ◌≢◌, refl, ap, ◌∙◌, arith, false, none, some, List, [], ◌∷◌, ◌++◌, map, All,
  All-map, ok, length, is_empty, length-append,
}
use mathlib.Core.List.{append_assoc}
use castr.Base.Bytes.{Bytes}
use castr.Base.Text.{ascii, decimal}
use castr.Base.Strings.{
  trim, starts_with, strip_prefix, split_once, split, split_crlf, parse_unsigned, u16_bound,
}
use castr.Base.Decimal.{IsDigit, decimal-IsDigit, parse_unsigned-decimal}
use castr.Base.Trim.{
  NoCr, trim-space, split_once-append, split-append, strip_prefix-append, strip_prefix-slash,
  split_crlf-append, split_crlf-none,
}
use castr.Miracast.Rtsp.{
  StartLine, request_line, status_line, Headers, format_start, find_double_crlf, parse_start_line,
  parse_headers, split_status, parse_status_line,
}

-- Texts of a head: no line break, and ASCII.
abbrev pub IsPlain : ℕ → Type 0
IsPlain c = (c ≢ 13) × (c < 128)

-- A start line that can be printed: a request's method is a token, an address has no space, and a
-- status fits its 16 bits.
abbrev pub IsStart : StartLine → Type 0
IsStart (request_line method uri) =
    (is_empty method ≡ false)
    × All (λ c. (c ≢ 32) × (c ≢ 47) × IsPlain c) method
    × All (λ c. (c ≢ 32) × IsPlain c) uri
IsStart (status_line status reason) = (status < u16_bound) × All IsPlain reason

-- A header that can be printed: the name has no colon, and neither part begins or ends with a
-- space.
abbrev pub IsHeader : Bytes × Bytes → Type 0
IsHeader (k, v) = All (λ c. (c ≢ 58) × IsPlain c) k × All IsPlain v × (trim k ≡ k) × (trim v ≡ v)

abbrev pub header_line : Bytes × Bytes → Bytes
header_line (k, v) = k ++ (58 ∷ 32 ∷ v)

abbrev pub joined : List Bytes → Bytes
joined [] = []
joined (l ∷ []) = l
joined (l ∷ next ∷ ls) = l ++ (13 ∷ 10 ∷ joined (next ∷ ls))

abbrev pub LaterLines : List Bytes → Type 0
LaterLines ls = All (λ l. (is_empty l ≡ false) × NoCr l) ls

pub split_crlf-joined :
    (l : Bytes) (ls : List Bytes) → NoCr l → LaterLines ls → split_crlf (joined (l ∷ ls)) ≡ l ∷ ls
split_crlf-joined l [] a b = split_crlf-none l a
split_crlf-joined l (next ∷ ls) a b =
    split_crlf-append l (joined (next ∷ ls)) a
    ∙ ap (λ t. l ∷ t) (split_crlf-joined next ls b.0.1 b.1)

find_double_crlf-step :
    (c : ℕ) (s : Bytes) (i : ℕ)
    → starts_with (13 ∷ 10 ∷ 13 ∷ 10 ∷ []) (c ∷ s) ≡ false
    → find_double_crlf s ≡ some i
    → find_double_crlf (c ∷ s) ≡ some (i + 1)
unfolding find_double_crlf
find_double_crlf-step c s i h e = rw (h, e) refl

find_double_crlf-line :
    (l s : Bytes) (i n : ℕ)
    → NoCr l
    → find_double_crlf s ≡ some i
    → n ≡ length l + i
    → find_double_crlf (l ++ s) ≡ some n
find_double_crlf-line [] s i n a e q = e ∙ ap some (omega (arith, q))
find_double_crlf-line (c ∷ l) s i n a e q =
    find_double_crlf-step c (l ++ s) (length l + i) (ground (arith, a.0))
      (find_double_crlf-line l s i (length l + i) a.1 e refl)
    ∙ ap some (omega (arith, q))

-- A line that follows is no second line break.
starts_with-next :
    (next : Bytes) (ls : List Bytes) (s : Bytes)
    → is_empty next ≡ false
    → NoCr next
    → starts_with (13 ∷ 10 ∷ 13 ∷ 10 ∷ []) (13 ∷ 10 ∷ (joined (next ∷ ls) ++ s)) ≡ false
starts_with-next [] ls s e a = cc
starts_with-next (c ∷ next) [] s e a = ground (arith, a.0)
starts_with-next (c ∷ next) (l ∷ ls) s e a = ground (arith, a.0)

find_double_crlf-end : (body : Bytes) → find_double_crlf (13 ∷ 10 ∷ 13 ∷ 10 ∷ body) ≡ some 0
unfolding find_double_crlf
find_double_crlf-end body = refl

pub find_double_crlf-joined :
    (l : Bytes) (ls : List Bytes) (body : Bytes)
    → NoCr l
    → LaterLines ls
    → find_double_crlf (joined (l ∷ ls) ++ (13 ∷ 10 ∷ 13 ∷ 10 ∷ body))
      ≡ some (length (joined (l ∷ ls)))
find_double_crlf-joined l [] body a b =
    find_double_crlf-line l (13 ∷ 10 ∷ 13 ∷ 10 ∷ body) 0 (length l) a (find_double_crlf-end body)
      (omega arith)
find_double_crlf-joined l (next ∷ ls) body a b =
    let rest = joined (next ∷ ls) in
    let s = rest ++ (13 ∷ 10 ∷ 13 ∷ 10 ∷ body) in
    let ih = find_double_crlf-joined next ls body b.0.1 b.1 in
    let at_lf = find_double_crlf-step 10 s (length rest) refl ih in
    let at_cr =
      find_double_crlf-step 13 (10 ∷ s) (length rest + 1)
        (starts_with-next next ls (13 ∷ 10 ∷ 13 ∷ 10 ∷ body) b.0.0 b.0.1) at_lf in
    ap find_double_crlf (append_assoc l (13 ∷ 10 ∷ rest) (13 ∷ 10 ∷ 13 ∷ 10 ∷ body))
    ∙ find_double_crlf-line l (13 ∷ 10 ∷ s) (length rest + 1 + 1) (length (joined (l ∷ next ∷ ls)))
        a at_cr (length-append l (13 ∷ 10 ∷ rest) ∙ omega arith)

parse_start_line-request :
    (line method uri : Bytes)
    → strip_prefix (ascii "RTSP/1.0 ") line ≡ none
    → split 32 line ≡ method ∷ uri ∷ ascii "RTSP/1.0" ∷ []
    → is_empty method ≡ false
    → parse_start_line line ≡ ok (request_line method uri)
unfolding parse_start_line
parse_start_line-request line method uri p s e = rw (p, s, e) refl

split_status-eq :
    (rest code reason : Bytes)
    → split_once 32 rest ≡ some (code, reason)
    → split_status rest ≡ (code, reason)
unfolding split_status
split_status-eq rest code reason s = rw (split_status, s) refl

parse_status_line-eq :
    (line code reason : Bytes) (status : ℕ)
    → parse_unsigned 10 u16_bound code ≡ some status
    → parse_status_line line (code, reason) ≡ ok (status_line status reason)
unfolding parse_status_line
parse_status_line-eq line code reason status e = rw (parse_status_line, e) refl

parse_start_line-status :
    (line rest code reason : Bytes) (status : ℕ)
    → strip_prefix (ascii "RTSP/1.0 ") line ≡ some rest
    → split_once 32 rest ≡ some (code, reason)
    → parse_unsigned 10 u16_bound code ≡ some status
    → parse_start_line line ≡ ok (status_line status reason)
unfolding parse_start_line
parse_start_line-status line rest code reason status p s e = rw (p) (
    ap (parse_status_line line) (split_status-eq rest code reason s)
    ∙ parse_status_line-eq line code reason status e)

digits-no-space : (c : ℕ) → IsDigit c → c ≢ 32
digits-no-space c h = ground arith

request_text :
    (method uri : Bytes)
    → IsStart (request_line method uri)
    → parse_start_line (method ++ (32 ∷ (uri ++ ascii " RTSP/1.0"))) ≡ ok (request_line method uri)
request_text method uri h =
    let no_space =
      All-map (λ c. (c ≢ 32) × (c ≢ 47) × IsPlain c) (λ c. c ≢ 32) (λ c g. g.0) method h.1 in
    let no_slash =
      All-map (λ c. (c ≢ 32) × (c ≢ 47) × IsPlain c) (λ c. c ≢ 47) (λ c g. g.1) method h.1 in
    parse_start_line-request (method ++ (32 ∷ (uri ++ ascii " RTSP/1.0"))) method uri
      (strip_prefix-slash (ascii "RTSP") (ascii "1.0 ") method (uri ++ ascii " RTSP/1.0")
        ((λ h. cc), ((λ h. cc), ((λ h. cc), ((λ h. cc), tt)))) no_slash)
      (split-append 32 method (uri ++ ascii " RTSP/1.0") no_space
        ∙ ap (λ t. method ∷ t)
            (split-append 32 uri (ascii "RTSP/1.0")
              (All-map (λ c. (c ≢ 32) × IsPlain c) (λ c. c ≢ 32) (λ c g. g.0) uri h.2)))
      h.0

status_text :
    (status : ℕ) (reason : Bytes)
    → IsStart (status_line status reason)
    → parse_start_line (ascii "RTSP/1.0 " ++ (decimal status ++ (32 ∷ reason)))
      ≡ ok (status_line status reason)
status_text status reason h =
    parse_start_line-status (ascii "RTSP/1.0 " ++ (decimal status ++ (32 ∷ reason)))
      (decimal status ++ (32 ∷ reason)) (decimal status) reason status
      (strip_prefix-append (ascii "RTSP/1.0 ") (decimal status ++ (32 ∷ reason)))
      (split_once-append 32 (decimal status) reason
        (All-map IsDigit (λ c. c ≢ 32) digits-no-space (decimal status) (decimal-IsDigit status)))
      (parse_unsigned-decimal status u16_bound (omega (arith, h.0)) h.0)

pub parse_start_line-format_start :
    (s : StartLine) → IsStart s → parse_start_line (format_start s) ≡ ok s
unfolding format_start
parse_start_line-format_start (request_line method uri) h = request_text method uri h
parse_start_line-format_start (status_line status reason) h = status_text status reason h

parse_headers-cons :
    (line k v w : Bytes) (ls : List Bytes) (hs : Headers)
    → is_empty line ≡ false
    → split_once 58 line ≡ some (k, w)
    → trim k ≡ k
    → trim w ≡ v
    → parse_headers ls ≡ ok hs
    → parse_headers (line ∷ ls) ≡ ok ((k, v) ∷ hs)
unfolding parse_headers
parse_headers-cons line k v w ls hs e s p q h = rw (e, s, h, p, q) refl

pub header_line-nonempty : (k v : Bytes) → is_empty (header_line (k, v)) ≡ false
header_line-nonempty [] v = refl
header_line-nonempty (c ∷ k) v = refl

parse_headers-nil : parse_headers [] ≡ ok []
unfolding parse_headers
parse_headers-nil = refl

pub parse_headers-map :
    (hs : Headers) → All IsHeader hs → parse_headers (map header_line hs) ≡ ok hs
parse_headers-map [] a = parse_headers-nil
parse_headers-map ((k, v) ∷ hs) ((n, p, t, u), a) =
    parse_headers-cons (header_line (k, v)) k v (32 ∷ v) (map header_line hs) hs
      (header_line-nonempty k v)
      (split_once-append 58 k (32 ∷ v)
        (All-map (λ c. (c ≢ 58) × IsPlain c) (λ c. c ≢ 58) (λ c h. h.0) k n))
      t (trim-space v ∙ u) (parse_headers-map hs a)
