-- ===== src/Miracast/Rtsp/RoundTrip.antt =====
-- A message that is printed and parsed.
use castr.Base.{
  ℕ, ◌+◌, ◌≤◌, ◌<◌, ◌≡◌, ◌≢◌, refl, sym, ap, ◌∙◌, arith, Bool, true, false, not, ◌&&◌, none, some,
  List, [], ◌∷◌, ◌++◌, map, All, All-map, All-append, ok, length, is_empty, take, drop, ◌==◌, leb,
  ltb, le→ltb, length-append, take-length_append, drop-length_append,
}
use mathlib.Core.List.{append_assoc}
use castr.Base.Bytes.{Bytes, bytes_eq}
use castr.Base.Text.{ascii, decimal}
use castr.Base.Strings.{
  split_crlf, trim, is_utf8, parse_unsigned, eq_ignore_ascii_case, to_lower, u64_bound,
}
use castr.Base.Decimal.{IsDigit, decimal-IsDigit, parse_unsigned-decimal}
use castr.Base.Trim.{NoCr, IsGraphic, trim-graphic, is_utf8-ascii}
use castr.Miracast.Rtsp.{
  StartLine, request_line, status_line, Headers, Message, find_header, format_start, format_headers,
  content_headers, format, find_double_crlf, parse_start_line, parse_headers, content_length, crlf,
  parse_head, parse, parse_body, parse_sized, parse_with_headers, parse_with_start,
  max_header_bytes, max_body_bytes,
}
use castr.Miracast.Rtsp.Lines.{
  IsPlain, IsStart, IsHeader, header_line, joined, split_crlf-joined, find_double_crlf-joined,
  parse_start_line-format_start, parse_headers-map, header_line-nonempty,
}

abbrev pub all_headers : Message → Headers
all_headers m = m.headers ++ content_headers m.body

-- The lines of the head.
abbrev pub later_lines : Message → List Bytes
later_lines m = map header_line (all_headers m)

abbrev pub head_text : Message → Bytes
head_text m = joined (format_start m.start ∷ later_lines m)

-- A message that the program prints: its parts are printable, it sets no length of its own, and it
-- keeps the limits.
pub record IsPrintable (m : Message) : Type 0 where
  pub start : IsStart m.start
  pub headers : All IsHeader m.headers
  pub no_length : find_header m.headers (ascii "content-length") ≡ none
  pub body : is_utf8 m.body ≡ true
  pub body_size : length m.body ≤ max_body_bytes
  pub head_size : length (head_text m) ≤ max_header_bytes

format-lines :
    (l : Bytes) (hs : Headers) (body : Bytes)
    → l ++ (crlf ++ (format_headers hs ++ (crlf ++ body)))
      ≡ joined (l ∷ map header_line hs) ++ (13 ∷ 10 ∷ 13 ∷ 10 ∷ body)
format-lines l [] body = refl
format-lines l ((k, v) ∷ hs) body =
    let rest = format_headers hs in
    let tail = 13 ∷ 10 ∷ body in
    let line : format_headers ((k, v) ∷ hs) ++ tail
        ≡ header_line (k, v) ++ (crlf ++ (rest ++ tail)) =
      append_assoc k (58 ∷ 32 ∷ (v ++ (crlf ++ rest))) tail
      ∙ (ap (λ t. k ++ (58 ∷ 32 ∷ t)) (append_assoc v (crlf ++ rest) tail)
          ∙ sym (append_assoc k (58 ∷ 32 ∷ v) (crlf ++ (rest ++ tail)))) in
    ap (λ t. l ++ (crlf ++ t)) (line ∙ format-lines (header_line (k, v)) hs body)
    ∙ sym (
        append_assoc l (13 ∷ 10 ∷ joined (header_line (k, v) ∷ map header_line hs))
          (13 ∷ 10 ∷ 13 ∷ 10 ∷ body))

-- Words of letters and signs, by computation.
unfoldable pub is_word : Bytes → Bool
is_word [] = true
is_word (c ∷ s) = leb 33 c && leb c 126 && not (c == 58) && is_word s

abbrev pub WordChar : ℕ → Type 0
WordChar c = IsGraphic c × (c ≢ 58)

pub is_word-All : (s : Bytes) → is_word s ≡ true → All WordChar s
unfolding is_word
is_word-All [] h = tt
is_word-All (c ∷ s) h = (ground (arith, h), is_word-All s (ground (arith, h)))

digit-WordChar : (c : ℕ) → IsDigit c → WordChar c
digit-WordChar c h = ((omega (arith, h.0), omega (arith, h.1)), ground (arith, h.0, h.1))

word-IsPlain : (c : ℕ) → WordChar c → (c ≢ 58) × IsPlain c
word-IsPlain c h = (h.1, (ground (arith, h.0.0), h.0.1))

pub word-IsHeader : (k v : Bytes) → All WordChar k → All WordChar v → IsHeader (k, v)
word-IsHeader k v a b = (
  All-map WordChar (λ c. (c ≢ 58) × IsPlain c) word-IsPlain k a,
  All-map WordChar IsPlain (λ c h. (word-IsPlain c h).1) v b,
  trim-graphic k (All-map WordChar IsGraphic (λ c h. h.0) k a),
  trim-graphic v (All-map WordChar IsGraphic (λ c h. h.0) v b),
)

content_headers-IsHeader : (body : Bytes) → All IsHeader (content_headers body)
unfolding content_headers is_word
content_headers-IsHeader [] = tt
content_headers-IsHeader (c ∷ body) = (
  word-IsHeader (ascii "Content-Type") (ascii "text/parameters")
      (is_word-All (ascii "Content-Type") refl) (is_word-All (ascii "text/parameters") refl),
  (
    word-IsHeader (ascii "Content-Length") (decimal (length (c ∷ body)))
        (is_word-All (ascii "Content-Length") refl)
        (All-map IsDigit WordChar digit-WordChar (decimal (length (c ∷ body)))
          (decimal-IsDigit (length (c ∷ body)))),
    tt,
  ),
)

find_header-append :
    (hs more : Headers) (name : Bytes)
    → find_header hs name ≡ none
    → find_header (hs ++ more) name ≡ find_header more name
unfolding find_header
find_header-append [] more name h = refl
find_header-append ((k, v) ∷ hs) more name h = ground (arith, find_header-append hs more name)

content_length-none :
    (hs : Headers) → find_header hs (ascii "content-length") ≡ none → content_length hs ≡ ok 0
unfolding content_length
content_length-none hs h = rw (content_length, h) refl

content_length-some :
    (hs : Headers) (v : Bytes) (n : ℕ)
    → find_header hs (ascii "content-length") ≡ some v
    → parse_unsigned 10 u64_bound (trim v) ≡ some n
    → content_length hs ≡ ok n
unfolding content_length
content_length-some hs v n h p = rw (content_length, h, p) refl

find_header-content :
    (c : ℕ) (body : Bytes)
    → find_header (content_headers (c ∷ body)) (ascii "content-length")
      ≡ some (decimal (length (c ∷ body)))
unfolding find_header content_headers eq_ignore_ascii_case to_lower bytes_eq
find_header-content c body = refl

find_header-content_nil : find_header (content_headers []) (ascii "content-length") ≡ none
unfolding find_header content_headers
find_header-content_nil = refl

content_length-headers :
    (hs : Headers) (body : Bytes)
    → find_header hs (ascii "content-length") ≡ none
    → length body ≤ max_body_bytes
    → content_length (hs ++ content_headers body) ≡ ok (length body)
content_length-headers hs [] h b = content_length-none (hs ++ content_headers []) (
    find_header-append hs (content_headers []) (ascii "content-length") h ∙ find_header-content_nil)
content_length-headers hs (c ∷ body) h b =
    let n = length (c ∷ body) in
    content_length-some (hs ++ content_headers (c ∷ body)) (decimal n) n
      (find_header-append hs (content_headers (c ∷ body)) (ascii "content-length") h
        ∙ find_header-content c body)
      (ap (parse_unsigned 10 u64_bound) (
          trim-graphic (decimal n) (
            All-map IsDigit IsGraphic (λ d g. (digit-WordChar d g).0) (decimal n)
              (decimal-IsDigit n)))
        ∙ parse_unsigned-decimal n u64_bound (omega (arith, b)) (omega (arith, b)))

-- The parser's steps, each on what the one before it gives.
parse_body-eq :
    (buf : Bytes) (body_start : ℕ) (start : StartLine) (hs : Headers) (body : Bytes)
    → length body ≤ max_body_bytes
    → body_start ≤ max_header_bytes + 4
    → body_start + length body ≤ length buf
    → take (length body) (drop body_start buf) ≡ body
    → is_utf8 body ≡ true
    → parse_body buf body_start start hs (length body)
      ≡ ok (some (record { start = start; headers = hs; body = body }, body_start + length body))
unfolding parse_body
parse_body-eq buf body_start start hs body b s l t u = ground (arith, t, u)

parse_with_start-eq :
    (buf : Bytes) (body_start : ℕ) (ls : List Bytes) (start : StartLine) (hs : Headers) (n : ℕ)
    → parse_headers ls ≡ ok hs
    → content_length hs ≡ ok n
    → parse_with_start buf body_start ls (ok start) ≡ parse_body buf body_start start hs n
unfolding parse_with_start parse_with_headers parse_sized
parse_with_start-eq buf body_start ls start hs n h c = rw (h, c) refl

parse_head-eq :
    (buf head : Bytes) (n : ℕ) (first : Bytes) (ls : List Bytes) (start : StartLine)
    → n ≤ max_header_bytes
    → take n buf ≡ head
    → is_utf8 head ≡ true
    → split_crlf head ≡ first ∷ ls
    → parse_start_line first ≡ ok start
    → parse_head buf n ≡ parse_with_start buf (n + 4) ls (ok start)
unfolding parse_head
parse_head-eq buf head n first ls start h t u s p =
    rw (t, u, s, p, le→ltb max_header_bytes n h) refl

parse-eq : (buf : Bytes) (n : ℕ) → find_double_crlf buf ≡ some n → parse buf ≡ parse_head buf n
unfolding parse
parse-eq buf n h = rw (parse, h) refl

-- A printed message, with what follows it on the connection.
stream :
    (m : Message) (rest : Bytes)
    → format m ++ rest ≡ head_text m ++ (13 ∷ 10 ∷ 13 ∷ 10 ∷ (m.body ++ rest))
unfolding format
stream m rest =
    ap (λ t. t ++ rest) (format-lines (format_start m.start) (all_headers m) m.body)
    ∙ append_assoc (head_text m) (13 ∷ 10 ∷ 13 ∷ 10 ∷ m.body) rest

header_line-LaterLine :
    (h : Bytes × Bytes) → IsHeader h → (is_empty (header_line h) ≡ false) × NoCr (header_line h)
header_line-LaterLine (k, v) (n, p, t, u) = (
  header_line-nonempty k v,
  All-append (λ c. c ≢ 13) k (58 ∷ 32 ∷ v)
      (All-map (λ c. (c ≢ 58) × IsPlain c) (λ c. c ≢ 13) (λ c g. g.1.0) k n)
      ((λ e. cc), ((λ e. cc), All-map IsPlain (λ c. c ≢ 13) (λ c g. g.0) v p)),
)

header_line-ascii : (h : Bytes × Bytes) → IsHeader h → All (λ c. c < 128) (header_line h)
header_line-ascii (k, v) (n, p, t, u) =
    All-append (λ c. c < 128) k (58 ∷ 32 ∷ v)
      (All-map (λ c. (c ≢ 58) × IsPlain c) (λ c. c < 128) (λ c g. g.1.1) k n)
      (omega arith, (omega arith, All-map IsPlain (λ c. c < 128) (λ c g. g.1) v p))

All-lines :
    (Q : Bytes → Type 0)
    → ((h : Bytes × Bytes) → IsHeader h → Q (header_line h))
    → (hs : Headers) → All IsHeader hs
    → All Q (map header_line hs)
All-lines Q f [] a = tt
All-lines Q f (h ∷ hs) a = (f h a.0, All-lines Q f hs a.1)

joined-ascii :
    (l : Bytes) (ls : List Bytes)
    → All (λ c. c < 128) l
    → All (All (λ c. c < 128)) ls
    → All (λ c. c < 128) (joined (l ∷ ls))
joined-ascii l [] a b = a
joined-ascii l (next ∷ ls) a b =
    All-append (λ c. c < 128) l (13 ∷ 10 ∷ joined (next ∷ ls)) a
      (omega arith, (omega arith, joined-ascii next ls b.0 b.1))

unfoldable pub is_plain : Bytes → Bool
is_plain [] = true
is_plain (c ∷ s) = not (c == 13) && ltb c 128 && is_plain s

pub is_plain-All : (s : Bytes) → is_plain s ≡ true → All IsPlain s
unfolding is_plain
is_plain-All [] h = tt
is_plain-All (c ∷ s) h = (ground (arith, h), is_plain-All s (ground (arith, h)))

format_start-IsPlain : (s : StartLine) → IsStart s → All IsPlain (format_start s)
unfolding format_start is_plain
format_start-IsPlain (request_line method uri) h =
    All-append IsPlain method (32 ∷ (uri ++ ascii " RTSP/1.0"))
      (All-map (λ c. (c ≢ 32) × (c ≢ 47) × IsPlain c) IsPlain (λ c g. g.2) method h.1)
      (
        ((λ e. cc), omega arith),
        All-append IsPlain uri (ascii " RTSP/1.0")
            (All-map (λ c. (c ≢ 32) × IsPlain c) IsPlain (λ c g. g.1) uri h.2)
            (is_plain-All (ascii " RTSP/1.0") refl),
      )
format_start-IsPlain (status_line status reason) h =
    All-append IsPlain (ascii "RTSP/1.0 ") (decimal status ++ (32 ∷ reason))
      (is_plain-All (ascii "RTSP/1.0 ") refl)
      (All-append IsPlain (decimal status) (32 ∷ reason)
        (All-map IsDigit IsPlain (λ c g. (word-IsPlain c (digit-WordChar c g)).1) (decimal status)
          (decimal-IsDigit status))
        (((λ e. cc), omega arith), h.1))

pub length-format : (m : Message) → length (format m) ≡ length (head_text m) + 4 + length m.body
unfolding format
length-format m =
    ap length (format-lines (format_start m.start) (all_headers m) m.body)
    ∙ (length-append (head_text m) (13 ∷ 10 ∷ 13 ∷ 10 ∷ m.body) ∙ omega arith)

drop-head : (head s : Bytes) → drop (length head + 4) (head ++ (13 ∷ 10 ∷ 13 ∷ 10 ∷ s)) ≡ s
drop-head head s =
    let mark = 13 ∷ 10 ∷ 13 ∷ 10 ∷ [] in
    ap (λ t. drop (length head + 4) t) (sym (append_assoc head mark s))
    ∙ (ap (λ n. drop n ((head ++ mark) ++ s)) (sym (length-append head mark))
        ∙ drop-length_append (head ++ mark) s)

parse_body-format :
    (m : Message) (rest : Bytes)
    → IsPrintable m
    → parse_body
        (format m ++ rest)
        (length (head_text m) + 4)
        m.start
        (all_headers m)
        (length m.body)
      ≡ ok (some (record m { headers = all_headers m }, length (format m)))
parse_body-format m rest p =
    let buf = format m ++ rest in
    let head = head_text m in
    parse_body-eq buf (length head + 4) m.start (all_headers m) m.body p.body_size
      (omega (arith, p.head_size)) (omega (arith, length-append (format m) rest, length-format m))
      (ap (λ t. take (length m.body) (drop (length head + 4) t)) (stream m rest)
        ∙ (ap (take (length m.body)) (drop-head head (m.body ++ rest))
            ∙ take-length_append m.body rest))
      p.body
    ∙ ap (λ n. ok (some (record m { headers = all_headers m }, n))) (sym (length-format m))

-- A printable message, whatever bytes follow it on the connection, is parsed as itself, with the
-- headers that printing adds for its body, and exactly its bytes are used up.
pub parse-format :
    (m : Message) (rest : Bytes)
    → IsPrintable m
    → parse (format m ++ rest) ≡ ok (some (record m { headers = all_headers m }, length (format m)))
parse-format m rest p =
    let buf = format m ++ rest in
    let first = format_start m.start in
    let hs = all_headers m in
    let printable =
      All-append IsHeader m.headers (content_headers m.body) p.headers
        (content_headers-IsHeader m.body) in
    let plain = format_start-IsPlain m.start p.start in
    let no_cr = All-map IsPlain (λ c. c ≢ 13) (λ c g. g.0) first plain in
    let lines = All-lines (λ l. (is_empty l ≡ false) × NoCr l) header_line-LaterLine hs printable in
    let ascii_head =
      joined-ascii first (later_lines m) (All-map IsPlain (λ c. c < 128) (λ c g. g.1) first plain)
        (All-lines (All (λ c. c < 128)) header_line-ascii hs printable) in
    let head = head_text m in
    let after = 13 ∷ 10 ∷ 13 ∷ 10 ∷ (m.body ++ rest) in
    let found = find_double_crlf-joined first (later_lines m) (m.body ++ rest) no_cr lines in
    let shape = stream m rest in
    parse-eq buf (length head) (ap find_double_crlf shape ∙ found)
    ∙ (parse_head-eq buf head (length head) first (later_lines m) m.start p.head_size
          (ap (take (length head)) shape ∙ take-length_append head after)
          (is_utf8-ascii head ascii_head) (split_crlf-joined first (later_lines m) no_cr lines)
          (parse_start_line-format_start m.start p.start)
        ∙ (parse_with_start-eq buf (length head + 4) (later_lines m) m.start hs (length m.body)
              (parse_headers-map hs printable)
              (content_length-headers m.headers m.body p.no_length p.body_size)
            ∙ parse_body-format m rest p))
