-- ===== src/Miracast/TsMux/RoundTrip.antt =====
-- A stream of pictures through the multiplexer and the demultiplexer.
use mathlib.Core.List.{append_assoc, append-nil}
use castr.Base.{
  ℕ, ◌≤◌, ◌≡◌, refl, ap, sym, ◌∙◌, arith, inl, inr, false, some, List, [], ◌∷◌, ◌++◌, length, All,
  is_empty, if◌then◌else◌,
}
use castr.Base.Bytes.{Bytes}
use castr.Miracast.Ts
use castr.Miracast.Ts.{Demux, AccessUnit, video, feed, push}
use castr.Miracast.TsMux
use castr.Miracast.TsMux.{
  Muxer, packetize, pes, stream_id_video, ticks_of, video_pid, video_packets, tables_if_due,
  mux_all,
}
use castr.Miracast.TsMux.Tables.{InStep, Knows, Tuned, feed-tables_if_due}
use castr.Miracast.TsMux.Video.{pes_header, pes_lem, pes_pts, ready, started, feed_first}

pub feed-append :
    (d : Demux) (xs ys : List Bytes)
    → feed d (xs ++ ys)
      ≡ (let (d1, out) = feed d xs in let (d2, more) = feed d1 ys in (d2, out ++ more))
unfolding feed
feed-append d [] ys = refl
feed-append d (x ∷ xs) ys = ground (
  arith,
  feed-append (push d x).0 xs ys,
  append_assoc (push d x).1 (feed (push d x).0 xs).1 (feed (feed (push d x).0 xs).0 ys).1,
)

feed_whole :
    (m : Muxer) (whole au : Bytes) (pts_us pcr : ℕ) (d : Demux)
    → whole ≡ pes_header pts_us ++ au
    → 14 ≤ length whole
    → InStep m d
    → Knows d
    → (let (m', out) = packetize m video_pid whole (some pcr) in
        feed d out ≡ (started d m'.cc au pts_us, ready d.video))
unfolding packetize
feed_whole m [] au pts_us pcr d w h e k = absurd (omega arith)
feed_whole m (x ∷ xs) au pts_us pcr d w h e k =
    feed_first (length xs) m x xs au pts_us pcr d w h (omega arith) e k

length-pes : (au : Bytes) (pts_us : ℕ) → 14 ≤ length (pes stream_id_video au pts_us false)
unfolding pes TsMux.pts_bytes
length-pes au pts_us = omega arith

feed-packetize :
    (m : Muxer) (au : Bytes) (pts_us : ℕ) (d : Demux)
    → InStep m d
    → Knows d
    → (let (m', out) =
          packetize m video_pid (pes stream_id_video au pts_us false) (some (ticks_of pts_us)) in
        feed d out ≡ (started d m'.cc au pts_us, ready d.video))
feed-packetize m au pts_us d e k =
    feed_whole m (pes stream_id_video au pts_us false) au pts_us (ticks_of pts_us) d
      (pes_lem au pts_us) (length-pes au pts_us) e k

-- What one picture does.
record Shown (m : Muxer) (d : Demux) (au : Bytes) (pts_us : ℕ) : Type 0 where
  after : Demux
  fed : feed d (video_packets m au pts_us).1 ≡ (after, ready d.video)
  in_step : InStep (video_packets m au pts_us).0 after
  knows : Knows after
  shown : ready after.video ≡ (if is_empty au then [] else video au (some (pes_pts pts_us)) ∷ [])
  errors : after.continuity_errors ≡ d.continuity_errors

feed-video_packets :
    (m : Muxer) (au : Bytes) (pts_us : ℕ) (d : Demux) → Tuned m d → Shown m d au pts_us
unfolding video_packets started
feed-video_packets m au pts_us d t =
    let (d1, f, e, k, same) = feed-tables_if_due m d t in
    let m1 = (tables_if_due m).0 in
    let tables = (tables_if_due m).1 in
    let (m2, out) =
      packetize m1 video_pid (pes stream_id_video au pts_us false) (some (ticks_of pts_us)) in
    let g = feed-packetize m1 au pts_us d1 e k in
    record {
      after = started d1 m2.cc au pts_us;
      fed = rw (feed-append d tables out, f, g, same.video) refl;
      in_step = refl;
      knows = record { pmt = k.pmt; video = k.video; audio = k.audio };
      shown = ground arith;
      errors = same.errors;
    }

abbrev pub units_of : List (Bytes × ℕ) → List AccessUnit
units_of [] = []
units_of ((au, pts_us) ∷ rest) = video au (some (pes_pts pts_us)) ∷ units_of rest

-- Every picture has a byte at least.
abbrev pub NonEmpty : List (Bytes × ℕ) → Type 0
NonEmpty fs = All (λ f. is_empty f.0 ≡ false) fs

feed-mux_all_from :
    (m : Muxer) (frames : List (Bytes × ℕ)) (d : Demux)
    → NonEmpty frames
    → Tuned m d
    → (let (d', out) = feed d (mux_all m frames).1 in
        (out ++ ready d'.video ≡ ready d.video ++ units_of frames)
        × (d'.continuity_errors ≡ d.continuity_errors))
unfolding mux_all feed
feed-mux_all_from m [] d a t = (sym (append-nil (ready d.video)), refl)
feed-mux_all_from m ((au, pts_us) ∷ rest) d a t =
    let s = feed-video_packets m au pts_us d t in
    let m1 = (video_packets m au pts_us).0 in
    let out = (video_packets m au pts_us).1 in
    let ih = feed-mux_all_from m1 rest s.after a.1 (s.in_step, inl s.knows) in
    let (last, more) = feed s.after (mux_all m1 rest).1 in
    let unit : ready s.after.video ≡ video au (some (pes_pts pts_us)) ∷ [] =
      rw (s.shown, a.0) refl in
    rw (feed-append d out (mux_all m1 rest).1, s.fed)
      (
        append_assoc (ready d.video) more (ready last.video)
            ∙ ap (λ (l : List AccessUnit). ready d.video ++ l)
                (ih.0 ∙ ap (λ (l : List AccessUnit). l ++ units_of rest) unit),
        ih.1 ∙ s.errors,
      )

-- A stream of pictures, none of them empty, from a new multiplexer through a new demultiplexer:
-- what the demultiplexer gives out, with the picture that it has ready for when the next one
-- starts, is the pictures, each whole and unchanged, in their order, each with its time in whole
-- ticks of 1/90000 s; and no break of a counter is seen.
pub feed-mux_all :
    (frames : List (Bytes × ℕ))
    → NonEmpty frames
    → (let (d', out) = feed Ts.new (mux_all TsMux.new frames).1 in
        (out ++ ready d'.video ≡ units_of frames) × (d'.continuity_errors ≡ 0))
unfolding Ts.new TsMux.new
feed-mux_all frames a = feed-mux_all_from TsMux.new frames Ts.new a (refl, inr refl)
