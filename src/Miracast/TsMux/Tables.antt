-- ===== src/Miracast/TsMux/Tables.antt =====
-- The demultiplexer learns the program from the tables.
use castr.Base.{
  ℕ, suc, ◌-◌, ◌+◌, ◌/◌, ◌%◌, ◌<◌, ◌≡◌, refl, ap, arith, Bool-cases, ◌⊎◌, inl, inr, ltb, ◌==◌, not,
  ◌&&◌, true, Option, none, some, List, [], ◌∷◌, ◌++◌, length, take, replicate,
}
use castr.Base.Maps.{lookup}
use castr.Base.Bytes.{Bytes}
use castr.Miracast.Ts.{
  Demux, push, push_payload, note_cc, read_pat, read_pmt, read_streams, note_stream, section_at,
  feed,
}
use castr.Miracast.TsMux.{
  Muxer, next_cc, section_packet, pat_section, pmt_section, section, stream_entry, packet_of,
  field_bytes, resize, table_interval_packets, tables_if_due, pmt_pid, video_pid, audio_pid,
}
use castr.Miracast.TsMux.Packets.{push-packet_of}

-- The demultiplexer has seen all that the multiplexer has put out.
abbrev pub InStep : Muxer → Demux → Type 0
InStep m d = d.last_cc ≡ m.cc

pub next_cc-lt : (m : Muxer) (pid : ℕ) → (next_cc m pid).1 < 16
unfolding next_cc
next_cc-lt m pid = omega arith

-- The next counter is the one that is expected.
pub note_cc-next_cc :
    (m : Muxer) (d : Demux) (pid : ℕ)
    → InStep m d
    → note_cc d pid (next_cc m pid).1 ≡ record d { last_cc = (next_cc m pid).0.cc }
unfolding note_cc next_cc
note_cc-next_cc m d pid e = go (lookup pid m.cc) refl
  where
    go :
        (o : Option ℕ)
        → lookup pid m.cc ≡ o
        → note_cc d pid (next_cc m pid).1 ≡ record d { last_cc = (next_cc m pid).0.cc }
    go none q = ground arith
    go (some c) q = ground arith

section_packet_lem :
    (pid : ℕ) (s : Bytes) (c : ℕ)
    → section_packet pid s c ≡ packet_of pid true c none (resize (0 ∷ s) 184 255)
unfolding section_packet packet_of field_bytes
section_packet_lem pid s c =
    let q : 188 - suc (suc (suc (suc (suc (length s))))) ≡ 184 - suc (length s) = omega arith in
    ap
      (λ (n : ℕ).
        0x47
        ∷ (0x40 + pid / 256 % 256 % 32)
        ∷ (pid % 256)
        ∷ (0x10 + c % 16)
        ∷ 0
        ∷ (take 183 s ++ replicate n 255))
      q

push-pat :
    (m : Muxer) (d : Demux)
    → InStep m d
    → push d (section_packet 0 pat_section (next_cc m 0).1)
      ≡ (record d { last_cc = (next_cc m 0).0.cc; pmt_pid = some pmt_pid }, [])
unfolding push_payload read_pat section_at pat_section section
push-pat m d e =
    rw
      (
        section_packet_lem 0 pat_section (next_cc m 0).1,
        push-packet_of d 0 true (next_cc m 0).1 none (resize (0 ∷ pat_section) 184 255)
            (omega arith) (next_cc-lt m 0) refl (omega arith),
        note_cc-next_cc m d 0 e,
      )
      refl

push-pmt :
    (m : Muxer) (d : Demux) (profile level : ℕ)
    → InStep m d
    → d.pmt_pid ≡ some pmt_pid
    → push d (section_packet pmt_pid (pmt_section profile level) (next_cc m pmt_pid).1) ≡ (
      record d {
        last_cc = (next_cc m pmt_pid).0.cc;
        video_pid = some video_pid;
        audio_pid = some audio_pid;
      },
      [],
    )
unfolding push_payload read_pmt read_streams note_stream section_at pmt_section section stream_entry
push-pmt m d profile level e k =
    rw
      (
        section_packet_lem pmt_pid (pmt_section profile level) (next_cc m pmt_pid).1,
        push-packet_of d pmt_pid true (next_cc m pmt_pid).1 none
            (resize (0 ∷ pmt_section profile level) 184 255) (omega arith) (next_cc-lt m pmt_pid)
            refl (omega arith),
        note_cc-next_cc m d pmt_pid e,
        k,
      )
      refl

-- The demultiplexer knows the program.
pub record Knows (d : Demux) : Type 0 where
  pub pmt : d.pmt_pid ≡ some pmt_pid
  pub video : d.video_pid ≡ some video_pid
  pub audio : d.audio_pid ≡ some audio_pid

-- Tables are due until they are known.
abbrev pub Tuned : Muxer → Demux → Type 0
Tuned m d = InStep m d × (Knows d ⊎ (m.since_tables ≡ 0))

-- What the tables leave as it was.
pub record SameStreams (d d' : Demux) : Type 0 where
  pub video : d'.video ≡ d.video
  pub audio : d'.audio ≡ d.audio
  pub errors : d'.continuity_errors ≡ d.continuity_errors

-- The demultiplexer after the tables.
tables_seen : Demux → List (ℕ × ℕ) → Demux
tables_seen d counters = record d {
  last_cc = counters;
  pmt_pid = some pmt_pid;
  video_pid = some video_pid;
  audio_pid = some audio_pid;
}

feed_both :
    (m : Muxer) (d : Demux) (profile level : ℕ)
    → InStep m d
    → (let (m1, a) = next_cc m 0 in
        let (m2, b) = next_cc m1 pmt_pid in
        feed d (
          section_packet 0 pat_section a
          ∷ section_packet pmt_pid (pmt_section profile level) b
          ∷ [])
        ≡ (tables_seen d m2.cc, []))
unfolding feed tables_seen
feed_both m d profile level e =
    let m1 = (next_cc m 0).0 in
    let d1 : Demux = record d { last_cc = m1.cc; pmt_pid = some pmt_pid } in
    rw (push-pat m d e, push-pmt m1 d1 profile level refl refl) refl

-- After the tables, where they are due, the program is known, and nothing else has changed.
pub feed-tables_if_due :
    (m : Muxer) (d : Demux)
    → Tuned m d
    → (d' : Demux) × (feed d (tables_if_due m).1 ≡ (d', []))
      × InStep (tables_if_due m).0 d'
      × Knows d'
      × SameStreams d d'
unfolding tables_if_due feed tables_seen
feed-tables_if_due m d t =
    elim (Bool-cases (not (m.since_tables == 0) && ltb m.since_tables table_interval_packets)) [
      | inl e ↦ rw e (
        d,
        refl,
        t.0,
        (let k : Knows d = elim t.1 [ inl k ↦ k | inr z ↦ absurd (ground arith) ] in k),
        record { video = refl; audio = refl; errors = refl },
      )
      | inr e ↦
          (let m0 : Muxer = record m { since_tables = 0 } in
            let c = (next_cc (next_cc m0 0).0 pmt_pid).0.cc in
            rw e (
              tables_seen d c,
              feed_both m0 d m.h264_profile m.h264_level t.0,
              refl,
              record { pmt = refl; video = refl; audio = refl },
              record { video = refl; audio = refl; errors = refl },
            ))
    ]
