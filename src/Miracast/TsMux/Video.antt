-- ===== src/Miracast/TsMux/Video.antt =====
-- What the multiplexer makes of a stream of pictures, taken apart again.
use castr.Base.{
  ℕ, zero, suc, ◌-◌, ◌+◌, ◌*◌, ◌/◌, ◌%◌, ◌^◌, ◌≤◌, ◌<◌, ◌≡◌, refl, ap, subst, ◌∙◌, arith, true,
  false, not, ◌&&◌, Option, none, some, List, [], ◌∷◌, ◌++◌, length, length-append, length-take,
  length-drop, length-replicate, take, drop, take-append-drop, replicate, min, if◌then◌else◌,
  is_empty,
}
use mathlib.Core.List.{append-nil}
use castr.Base.Bytes.{Bytes}
use castr.Miracast.Ts.{
  Demux, Assembly, AccessUnit, video, push, push_payload, assemble, begin, append, is_complete,
  finish, parse_pes, pes_time, declared_len, feed,
}
use castr.Miracast.TsMux.{
  Muxer, next_cc, packet_of, resize, capacity, padded_field, first_field, pcr_bytes, packetize_loop,
  pes, pts_bytes, ticks_of, stream_id_video, video_pid,
}
use castr.Miracast.TsMux.Packets.{push-packet_of, field_len}
use castr.Miracast.TsMux.Tables.{InStep, Knows, next_cc-lt, note_cc-next_cc}

length-resize : (p : Bytes) (n v : ℕ) → length (resize p n v) ≡ n
length-resize p n v = omega (
  arith,
  length-append (take n p) (replicate (n - length p) v),
  length-take n p,
  length-replicate {0} {A = ℕ} (n - length p) v,
)

-- The adaptation field and the payload of every packet fill it.
padded_field-fits :
    (af : Option Bytes) (remaining : ℕ)
    → field_len af < 184
    → 0 < remaining
    → (field_len (padded_field af remaining) + min remaining (capacity (padded_field af remaining))
        ≡ 184)
      × (0 < min remaining (capacity (padded_field af remaining)))
unfolding padded_field
padded_field-fits none remaining h k =
    ground
      (arith, length-resize (0 ∷ []) (183 - remaining) 255, length-resize [] (183 - remaining) 255)
padded_field-fits (some []) remaining h k =
    ground
      (arith, length-resize (0 ∷ []) (183 - remaining) 255, length-resize [] (183 - remaining) 255)
padded_field-fits (some (x ∷ v)) remaining h k =
    ground (arith, length-resize (x ∷ v) (183 - remaining) 255)

-- A picture in assembly, of unknown length and undamaged.
pub record IsGrowing (a : Assembly) : Type 0 where
  pub opened : a.opened ≡ true
  pub intact : a.damaged ≡ false
  pub unbounded : a.expected ≡ none

-- The demultiplexer with more of the picture.
grown : Demux → List (ℕ × ℕ) → Bytes → Demux
grown d counters more = record d {
  last_cc = counters;
  video = record d.video { bytes = d.video.bytes ++ more };
}

push-continued :
    (m : Muxer) (d : Demux) (af : Option Bytes) (payload : Bytes)
    → InStep m d
    → Knows d
    → IsGrowing d.video
    → field_len af + length payload ≡ 184
    → 0 < length payload
    → push d (packet_of video_pid false (next_cc m video_pid).1 af payload)
      ≡ (grown d (next_cc m video_pid).0.cc payload, [])
unfolding push_payload assemble append finish is_complete grown
push-continued m d af payload e k g f l =
    rw
      (
        push-packet_of d video_pid false (next_cc m video_pid).1 af payload (omega arith)
            (next_cc-lt m video_pid) f l,
        note_cc-next_cc m d video_pid e,
      )
      (ground (arith, k.pmt, k.video, g.opened, g.intact, g.unbounded))

length-chunk :
    (af : Option Bytes) (xs : Bytes)
    → field_len af < 184
    → 0 < length xs
    → (field_len (padded_field af (length xs))
          + length (take (min (length xs) (capacity (padded_field af (length xs)))) xs)
        ≡ 184)
      × (0 < length (take (min (length xs) (capacity (padded_field af (length xs)))) xs))
length-chunk af xs h k =
    let (f, l) = padded_field-fits af (length xs) h k in
    let n = min (length xs) (capacity (padded_field af (length xs))) in
    (omega (arith, f, length-take n xs), omega (arith, l, length-take n xs))

append_assoc_take : (xs ys : Bytes) (n : ℕ) → (xs ++ take n ys) ++ drop n ys ≡ xs ++ ys
append_assoc_take [] ys n = take-append-drop n ys
append_assoc_take (x ∷ xs) ys n = ap (λ (t : Bytes). x ∷ t) (append_assoc_take xs ys n)

grown_nil :
    (m : Muxer) (d : Demux)
    → InStep m d
    → ◌≡◌ {A = Demux × List AccessUnit} (d, []) (grown d m.cc [], [])
unfolding grown
grown_nil m d e = ground (arith, e, append-nil d.video.bytes)

-- The packets behind the first add the rest of the picture.
feed-packetize_loop :
    (fuel : ℕ) (m : Muxer) (rest : Bytes) (pcr : Option ℕ) (d : Demux)
    → length rest ≤ fuel
    → InStep m d
    → Knows d
    → IsGrowing d.video
    → feed d (packetize_loop fuel m video_pid rest false pcr).1
      ≡ (grown d (packetize_loop fuel m video_pid rest false pcr).0.cc rest, [])
unfolding packetize_loop feed first_field grown
feed-packetize_loop zero m [] pcr d h e k g = grown_nil m d e
feed-packetize_loop zero m (x ∷ xs) pcr d h e k g = absurd (omega arith)
feed-packetize_loop (suc fuel) m [] pcr d h e k g = grown_nil m d e
feed-packetize_loop (suc fuel) m (x ∷ xs) pcr d h e k g =
    let af = padded_field none (length (x ∷ xs)) in
    let n = min (length (x ∷ xs)) (capacity af) in
    let m1 = (next_cc m video_pid).0 in
    let m2 : Muxer = record m1 { since_tables = (m1.since_tables + 1) % 2 ^ 32 } in
    let chunk = take n (x ∷ xs) in
    let (f, l) = length-chunk none (x ∷ xs) (omega arith) (omega arith) in
    let ih =
      feed-packetize_loop fuel m2 (drop n (x ∷ xs)) pcr (grown d m1.cc chunk)
        (omega (arith, length-drop n (x ∷ xs), length-take n (x ∷ xs))) refl
        (record { pmt = k.pmt; video = k.video; audio = k.audio })
        (record { opened = g.opened; intact = g.intact; unbounded = g.unbounded }) in
    rw (push-continued m d af chunk e k g f l, ih, append_assoc_take d.video.bytes (x ∷ xs) n) refl

-- The time that comes out: the 90 kHz ticks of the time that went in, to 33 bits, in microseconds.
abbrev pub pes_pts : ℕ → ℕ
pes_pts pts_us = ticks_of pts_us % 2 ^ 33 * 1000000 / 90000

pes_time-pts_bytes :
    (t : ℕ)
    → pes_time
        (0x21 + t / 2 ^ 30 % 8 * 2)
        (t / 2 ^ 22 % 256)
        (t / 2 ^ 15 % 128 * 2 + 1)
        (t / 2 ^ 7 % 256)
        (t % 128 * 2 + 1)
      ≡ t % 2 ^ 33 * 1000000 / 90000
unfolding pes_time
pes_time-pts_bytes t =
    let q : (33 + t / 2 ^ 30 % 8 * 2) / 2 % 8 * 2 ^ 30
          + t / 2 ^ 22 % 256 * 2 ^ 22
          + (t / 2 ^ 15 % 128 * 2 + 1) / 2 % 128 * 2 ^ 15
          + t / 2 ^ 7 % 256 * 2 ^ 7
          + (t % 128 * 2 + 1) / 2
        ≡ t % 2 ^ 33 =
      omega arith in
    ap (λ (n : ℕ). n * 1000000 / 90000) q

-- The header of a picture's PES packet: 14 bytes.
abbrev pub pes_header : ℕ → Bytes
pes_header pts_us = take 14 (pes stream_id_video [] pts_us false)

pub pes_lem :
    (au : Bytes) (pts_us : ℕ) → pes stream_id_video au pts_us false ≡ pes_header pts_us ++ au
unfolding pes pts_bytes
pes_lem au pts_us = refl

parse_pes-pes :
    (chunk : Bytes) (pts_us : ℕ)
    → parse_pes (pes_header pts_us ++ chunk)
      ≡ some (record { pts_us = some (pes_pts pts_us); payload_len = none; body = chunk })
unfolding parse_pes pes pts_bytes declared_len
parse_pes-pes chunk pts_us = ground (arith, pes_time-pts_bytes (ticks_of pts_us))

-- What goes out when the next picture starts.
abbrev pub ready : Assembly → List AccessUnit
ready a =
    if a.opened && not a.damaged && not (is_empty a.bytes) then video a.bytes a.pts_us ∷ [] else []

-- The demultiplexer at the start of a picture.
unfoldable pub started : Demux → List (ℕ × ℕ) → Bytes → ℕ → Demux
started d counters chunk pts_us = record d {
  last_cc = counters;
  video = record {
    bytes = chunk;
    pts_us = some (pes_pts pts_us);
    damaged = false;
    opened = true;
    expected = none;
  };
}

push-first :
    (m : Muxer) (d : Demux) (af : Option Bytes) (chunk : Bytes) (pts_us : ℕ)
    → InStep m d
    → Knows d
    → field_len af + length (pes_header pts_us ++ chunk) ≡ 184
    → push d (packet_of video_pid true (next_cc m video_pid).1 af (pes_header pts_us ++ chunk))
      ≡ (started d (next_cc m video_pid).0.cc chunk pts_us, ready d.video)
unfolding push_payload assemble begin append finish is_complete started pes pts_bytes
push-first m d af chunk pts_us e k f =
    let payload = pes_header pts_us ++ chunk in
    rw
      (
        push-packet_of d video_pid true (next_cc m video_pid).1 af payload (omega arith)
            (next_cc-lt m video_pid) f (omega arith),
        note_cc-next_cc m d video_pid e,
      )
      (ground (arith, k.pmt, k.video, parse_pes-pes chunk pts_us))

-- The first packet has room for the whole header.
first_room :
    (pcr remaining : ℕ)
    → 14 ≤ remaining
    → 14 ≤ min remaining (capacity (padded_field (first_field true (some pcr)) remaining))
unfolding padded_field first_field pcr_bytes
first_room pcr remaining h =
    ground (arith, length-resize (0x10 ∷ pcr_bytes pcr) (183 - remaining) 255)

split_header :
    (n : ℕ) (au : Bytes) (pts_us : ℕ)
    → 14 ≤ n
    → (take n (pes_header pts_us ++ au) ≡ pes_header pts_us ++ take (n - 14) au)
      × (drop n (pes_header pts_us ++ au) ≡ drop (n - 14) au)
unfolding pes pts_bytes
split_header n au pts_us h =
    let k = n - 14 in
    let q : suc (suc (suc (suc (suc (suc (suc (suc (suc (suc (suc (suc (suc (suc k)))))))))))))
        ≡ n =
      omega arith in
    subst
      (λ (j : ℕ).
        (take j (pes_header pts_us ++ au) ≡ pes_header pts_us ++ take (n - 14) au)
        × (drop j (pes_header pts_us ++ au) ≡ drop (n - 14) au))
      q (refl, refl)

field_fits : (pcr : ℕ) → field_len (first_field true (some pcr)) < 184
unfolding first_field pcr_bytes
field_fits pcr = omega arith

-- A whole picture, from the loop's first turn on.
pub feed_first :
    (fuel : ℕ) (m : Muxer) (x : ℕ) (xs au : Bytes) (pts_us pcr : ℕ) (d : Demux)
    → x ∷ xs ≡ pes_header pts_us ++ au
    → 14 ≤ length (x ∷ xs)
    → length xs ≤ fuel
    → InStep m d
    → Knows d
    → feed d (packetize_loop (suc fuel) m video_pid (x ∷ xs) true (some pcr)).1 ≡ (
      started d (packetize_loop (suc fuel) m video_pid (x ∷ xs) true (some pcr)).0.cc au pts_us,
      ready d.video,
    )
unfolding packetize_loop feed grown started
feed_first fuel m x xs au pts_us pcr d w w14 h e k =
    let field = first_field true (some pcr) in
    let af = padded_field field (length (x ∷ xs)) in
    let n = min (length (x ∷ xs)) (capacity af) in
    let m1 = (next_cc m video_pid).0 in
    let m2 : Muxer = record m1 { since_tables = (m1.since_tables + 1) % 2 ^ 32 } in
    let room : 14 ≤ n = first_room pcr (length (x ∷ xs)) w14 in
    let (t, r) = split_header n au pts_us room in
    let tw : take n (x ∷ xs) ≡ pes_header pts_us ++ take (n - 14) au =
      ap (λ (l : Bytes). take n l) w ∙ t in
    let r' : drop n (x ∷ xs) ≡ drop (n - 14) au = ap (λ (l : Bytes). drop n l) w ∙ r in
    let (f, l) = length-chunk field (x ∷ xs) (field_fits pcr) (omega arith) in
    let fits : field_len af + length (pes_header pts_us ++ take (n - 14) au) ≡ 184 =
      subst (λ (p : Bytes). field_len af + length p ≡ 184) tw f in
    let ih =
      feed-packetize_loop fuel m2 (drop n (x ∷ xs)) (some pcr)
        (started d m1.cc (take (n - 14) au) pts_us) (omega (arith, length-drop n (x ∷ xs))) refl
        (record { pmt = k.pmt; video = k.video; audio = k.audio })
        (record { opened = refl; intact = refl; unbounded = refl }) in
    rw
      (
        tw,
        push-first m d af (take (n - 14) au) pts_us e k fits,
        ih,
        r',
        take-append-drop (n - 14) au,
        append-nil (ready d.video),
      )
      refl
