-- ===== src/Miracast/Ts.antt =====
-- crates/castr-miracast/src/ts.rs: the MPEG transport stream, taken apart. Masks and shifts are
-- remainders and quotients, and `|` of fields that share no bit is their sum.
use castr.Base.{
  ℕ, zero, suc, ◌-◌, ◌+◌, ◌*◌, ◌/◌, ◌%◌, ◌^◌, min, Bool, true, false, not, ◌&&◌, ◌||◌, Option, none,
  some, List, [], ◌∷◌, ◌++◌, ltb, leb, ◌==◌, if◌then◌else◌, length, get_or, take, drop, is_empty,
}
use castr.Base.Words.{add64}
use castr.Base.Maps.{lookup, insert}
use castr.Base.Bytes.{Bytes}

abbrev pub packet_len : ℕ
packet_len = 188

abbrev pub sync : ℕ
sync = 0x47

abbrev pub stream_type_h264 : ℕ
stream_type_h264 = 0x1b

abbrev pub stream_type_lpcm : ℕ
stream_type_lpcm = 0x83

-- `Unit`: an access unit, with its time in microseconds.
pub data AccessUnit : Type 0 where
  video : Bytes → Option ℕ → AccessUnit
  audio : Bytes → Option ℕ → AccessUnit

pub record DemuxStats : Type 0 where
  pub continuity_errors : ℕ
  pub video_pid : Option ℕ
  pub audio_pid : Option ℕ

-- The field `opened` is the source's `open`.
pub record Assembly : Type 0 where
  pub bytes : Bytes
  pub pts_us : Option ℕ
  pub damaged : Bool
  pub opened : Bool
  pub expected : Option ℕ

abbrev pub no_assembly : Assembly
no_assembly = record { bytes = []; pts_us = none; damaged = false; opened = false; expected = none }

unfoldable pub append : Assembly → Bytes → Assembly
append a bytes = elim a.expected [
  | none ↦ record a { bytes = a.bytes ++ bytes }
  | some want ↦ record a {
    bytes = a.bytes ++ take (min (want - length a.bytes) (length bytes)) bytes;
  }
]

-- A unit of a declared length that has all of its bytes.
unfoldable pub is_complete : Assembly → Bool
is_complete a = elim a.expected [ none ↦ false | some want ↦ leb want (length a.bytes) ]

pub record Demux : Type 0 where
  pub pmt_pid : Option ℕ
  pub video_pid : Option ℕ
  pub audio_pid : Option ℕ
  pub video : Assembly
  pub audio : Assembly
  pub last_cc : List (ℕ × ℕ)
  pub continuity_errors : ℕ

unfoldable pub new : Demux
new = record {
  pmt_pid = none;
  video_pid = none;
  audio_pid = none;
  video = no_assembly;
  audio = no_assembly;
  last_cc = [];
  continuity_errors = 0;
}

unfoldable pub stats : Demux → DemuxStats
stats d = record {
  continuity_errors = d.continuity_errors;
  video_pid = d.video_pid;
  audio_pid = d.audio_pid;
}

-- `Some(pid) == known`
abbrev pub is_pid : Option ℕ → ℕ → Bool
is_pid none pid = false
is_pid (some known) pid = pid == known

pub record Pes : Type 0 where
  pub pts_us : Option ℕ
  pub payload_len : Option ℕ
  pub body : Bytes

-- The 33 bits of a time in units of 1/90000 s, in microseconds.
unfoldable pub pes_time : ℕ → ℕ → ℕ → ℕ → ℕ → ℕ
pes_time b0 b1 b2 b3 b4 =
    (b0 / 2 % 8 * 2 ^ 30 + b1 * 2 ^ 22 + b2 / 2 % 128 * 2 ^ 15 + b3 * 2 ^ 7 + b4 / 2)
    * 1000000
    / 90000

-- `packet_len.checked_sub(3 + header_len).filter(|_| packet_len != 0)`
unfoldable pub declared_len : ℕ → ℕ → Option ℕ
declared_len packet_len header_len =
    if ltb packet_len (3 + header_len) || packet_len == 0
    then none
    else some (packet_len - (3 + header_len))

unfoldable pub parse_pes : Bytes → Option Pes
parse_pes p =
    let b : ℕ → ℕ = λ i. get_or p i 0 in
    if ltb (length p) 9 || not (b 0 == 0) || not (b 1 == 0) || not (b 2 == 1)
    then none
    else if ltb (length p) (9 + b 8)
    then none
    else some (record {
      pts_us =
          (if b 7 / 128 % 2 == 1 && leb 5 (b 8)
            then some (pes_time (b 9) (b 10) (b 11) (b 12) (b 13))
            else none);
      payload_len = declared_len (256 * b 4 + b 5) (b 8);
      body = drop (9 + b 8) p;
    })

-- `payload.get(1 + ptr..)`, of a payload that is not empty.
unfoldable pub section_at : Bytes → Option Bytes
section_at [] = none
section_at (ptr ∷ rest) = if ltb (length rest) ptr then none else some (drop ptr rest)

unfoldable pub read_pat : Demux → Bytes → Bool → Demux
read_pat d payload start = if not start then d else elim (section_at payload) [
  | none ↦ d
  | some s ↦
      (let pid = get_or s 10 0 % 32 * 256 + get_or s 11 0 in
        if ltb (length s) 12 || not (get_or s 0 0 == 0) || pid == 0
        then d
        else record d { pmt_pid = some pid })
]

-- What one entry of the program map says.
unfoldable pub note_stream : Demux → ℕ → ℕ → Demux
note_stream d stream_type pid =
    if stream_type == stream_type_h264
    then record d { video_pid = some pid }
    else if stream_type == stream_type_lpcm
    then record d { audio_pid = some pid }
    else d

-- The loop, over the bytes from `i` to `end`. Each turn takes five at least, so that their number
-- is fuel enough.
unfoldable pub read_streams : ℕ → Demux → Bytes → Demux
unfolding note_stream
read_streams zero d es = d
read_streams (suc fuel) d (stream_type ∷ p ∷ q ∷ r ∷ t ∷ rest) =
    read_streams fuel (note_stream d stream_type (p % 32 * 256 + q)) (drop (r % 16 * 256 + t) rest)
read_streams (suc fuel) d _ = d

unfoldable pub read_pmt : Demux → Bytes → Bool → Demux
read_pmt d payload start = if not start then d else elim (section_at payload) [
  | none ↦ d
  | some s ↦
      (let b : ℕ → ℕ = λ i. get_or s i 0 in
        let section_len = b 1 % 16 * 256 + b 2 + 3 in
        let info_len = b 10 % 16 * 256 + b 11 in
        let es = drop (12 + info_len) (take (min (section_len - 4) (length s)) s) in
        if ltb (length s) 12 || not (b 0 == 2) || ltb section_len 16
        then d
        else read_streams (length es) d es)
]

-- The whole of the damage that a jump of the counter on `pid` does.
unfoldable pub damage : Demux → ℕ → Demux
damage d pid =
    let d' : Demux = record d { continuity_errors = add64 d.continuity_errors 1 } in
    if is_pid d.video_pid pid
    then record d' { video = record d.video { damaged = true } }
    else if is_pid d.audio_pid pid
    then record d' { audio = record d.audio { damaged = true } }
    else d'

unfoldable pub note_cc : Demux → ℕ → ℕ → Demux
note_cc d pid cc =
    let d' : Demux = record d { last_cc = insert pid cc d.last_cc } in
    elim (lookup pid d.last_cc) [
      | none ↦ d'
      | some c ↦ if cc == (c + 1) % 16 then d' else damage d' pid
    ]

abbrev pub unit_of : Bool → Bytes → Option ℕ → AccessUnit
unit_of true bytes pts_us = video bytes pts_us
unit_of false bytes pts_us = audio bytes pts_us

-- A new PES packet starts: what came before goes out, if it is intact.
unfoldable pub begin : Bool → Assembly → Bytes → Assembly × List AccessUnit
begin is_video a payload =
    let out =
      (if a.opened && not a.damaged && not (is_empty a.bytes)
        then unit_of is_video a.bytes a.pts_us ∷ []
        else []) in
    let a' : Assembly = record a { bytes = []; damaged = false; opened = true } in
    elim (parse_pes payload) [
      | some pes ↦
          (append (record a' { pts_us = pes.pts_us; expected = pes.payload_len }) pes.body, out)
      | none ↦ (record a' { opened = false; damaged = true; expected = none }, out)
    ]

-- A unit whose declared length has come.
unfoldable pub finish : Bool → Assembly → Assembly × List AccessUnit
finish is_video a =
    if a.opened && is_complete a && not a.damaged
    then (
      record a { bytes = []; opened = false; expected = none },
      unit_of is_video a.bytes a.pts_us ∷ [],
    )
    else (a, [])

unfoldable pub assemble : Bool → Assembly → Bytes → Bool → Assembly × List AccessUnit
assemble is_video a payload start =
    let (b, out) =
      (if start
        then begin is_video a payload
        else (if a.opened then (append a payload, []) else (a, []))) in
    let (c, more) = finish is_video b in (c, out ++ more)

-- `push` behind the counter.
unfoldable pub push_payload : Demux → ℕ → Bytes → Bool → Demux × List AccessUnit
push_payload d pid payload start =
    if pid == 0
    then (read_pat d payload start, [])
    else if is_pid d.pmt_pid pid
    then (read_pmt d payload start, [])
    else if is_pid d.video_pid pid
    then (let (a, out) = assemble true d.video payload start in (record d { video = a }, out))
    else if is_pid d.audio_pid pid
    then (let (a, out) = assemble false d.audio payload start in (record d { audio = a }, out))
    else (d, [])

-- Where the payload begins, if there is room for one behind the adaptation field.
unfoldable pub payload_offset : Bytes → Option ℕ
payload_offset packet =
    if get_or packet 3 0 / 32 % 2 == 1
    then (if leb packet_len (5 + get_or packet 4 0) then none else some (5 + get_or packet 4 0))
    else some 4

unfoldable pub push : Demux → Bytes → Demux × List AccessUnit
push d packet =
    let b : ℕ → ℕ = λ i. get_or packet i 0 in
    if not (length packet == packet_len) || not (b 0 == sync) || not (b 3 / 16 % 2 == 1)
    then (d, [])
    else elim (payload_offset packet) [
      | none ↦ (d, [])
      | some off ↦
          (let pid = b 1 % 32 * 256 + b 2 in
            push_payload (note_cc d pid (b 3 % 16)) pid (drop off packet) (b 1 / 64 % 2 == 1))
    ]

-- The sink's loop over the packets of a datagram.
unfoldable pub feed : Demux → List Bytes → Demux × List AccessUnit
feed d [] = (d, [])
feed d (packet ∷ rest) =
    let (d', out) = push d packet in let (d'', more) = feed d' rest in (d'', out ++ more)
