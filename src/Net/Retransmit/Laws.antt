-- ===== src/Net/Retransmit/Laws.antt =====
-- What the buffer keeps, and what it answers.
use castr.Base.{ℕ, ◌-◌, ◌≤◌, ◌≡◌, arith, Bool, some, List, [], ◌∷◌, ◌++◌, All}
use castr.Base.Bytes.{Bytes}
use castr.Proto.Reassemble.{Nack}
use castr.Net.Retransmit.{
  Sent, RetransmitBuffer, prune_frames, prune, record_frame, find_frame, select_fragments, lookup,
}

-- Sent in this order, from time `t` on.
abbrev pub SentAfter : ℕ → List Sent → Type 0
SentAfter t [] = Unit
SentAfter t (s ∷ rest) = (t ≤ s.sent_at_us) × SentAfter s.sent_at_us rest

-- The frames are in the order of their sending, none later than `now_us`, and none is older than
-- the limit.
abbrev pub NotAfter : ℕ → List Sent → Type 0
NotAfter now_us fs = All (λ s. s.sent_at_us ≤ now_us) fs

abbrev pub Kept : ℕ → ℕ → List Sent → Type 0
Kept max_age_us now_us fs = All (λ s. now_us - s.sent_at_us ≤ max_age_us) fs

SentAfter-le : (t u : ℕ) (fs : List Sent) → t ≤ u → SentAfter u fs → SentAfter t fs
SentAfter-le t u [] h s = tt
SentAfter-le t u (f ∷ fs) h s = (omega arith, s.1)

Kept-front :
    (max_age_us now_us t : ℕ) (fs : List Sent)
    → now_us - t ≤ max_age_us
    → SentAfter t fs
    → Kept max_age_us now_us fs
Kept-front max_age_us now_us t [] h s = tt
Kept-front max_age_us now_us t (f ∷ fs) h s =
    (omega arith, Kept-front max_age_us now_us f.sent_at_us fs (omega arith) s.1)

prune_frames-Kept :
    (max_age_us now_us t : ℕ) (fs : List Sent)
    → SentAfter t fs
    → Kept max_age_us now_us (prune_frames max_age_us now_us fs)
      × SentAfter t (prune_frames max_age_us now_us fs)
unfolding prune_frames
prune_frames-Kept max_age_us now_us t [] s = (tt, tt)
prune_frames-Kept max_age_us now_us t (f ∷ fs) s = ground (
  arith,
  prune_frames-Kept max_age_us now_us t fs (SentAfter-le t f.sent_at_us fs s.0 s.1),
  Kept-front max_age_us now_us f.sent_at_us fs,
)

prune_frames-All {κ} :
    (P : Sent → Type κ) (max_age_us now_us : ℕ) (fs : List Sent)
    → All P fs
    → All P (prune_frames max_age_us now_us fs)
unfolding prune_frames
prune_frames-All P max_age_us now_us [] a = tt
prune_frames-All P max_age_us now_us (f ∷ fs) a =
    ground (arith, prune_frames-All P max_age_us now_us fs)

SentAfter-snoc :
    (t : ℕ) (fs : List Sent) (s : Sent)
    → t ≤ s.sent_at_us
    → SentAfter t fs
    → NotAfter s.sent_at_us fs
    → SentAfter t (fs ++ (s ∷ []))
SentAfter-snoc t [] s h a n = (h, tt)
SentAfter-snoc t (f ∷ fs) s h a n = (a.0, SentAfter-snoc f.sent_at_us fs s n.0 a.1 n.1)

NotAfter-snoc :
    (now_us : ℕ) (fs : List Sent) (s : Sent)
    → s.sent_at_us ≤ now_us
    → NotAfter now_us fs
    → NotAfter now_us (fs ++ (s ∷ []))
NotAfter-snoc now_us [] s h n = (h, tt)
NotAfter-snoc now_us (f ∷ fs) s h n = (n.0, NotAfter-snoc now_us fs s h n.1)

NotAfter-le : (t u : ℕ) (fs : List Sent) → t ≤ u → NotAfter t fs → NotAfter u fs
NotAfter-le t u [] h n = tt
NotAfter-le t u (f ∷ fs) h n = (omega arith, NotAfter-le t u fs h n.1)

-- The state of a buffer at time `now_us`.
pub record IsValid (now_us : ℕ) (b : RetransmitBuffer) : Type 0 where
  pub ordered : SentAfter 0 b.frames
  pub past : NotAfter now_us b.frames
  pub kept : Kept b.max_age_us now_us b.frames

-- Recording a frame no earlier than the last keeps the frames in the order of their sending, and
-- none older than the limit.
pub record_frame-IsValid :
    (b : RetransmitBuffer) (t frame_number : ℕ) (keyframe : Bool) (fragments : List Bytes)
    (sent_at_us : ℕ)
    → IsValid t b
    → t ≤ sent_at_us
    → IsValid sent_at_us (record_frame b frame_number keyframe fragments sent_at_us)
unfolding record_frame prune
record_frame-IsValid b t frame_number keyframe fragments sent_at_us v h =
    let sent : Sent = record {
      frame_number = frame_number;
      keyframe = keyframe;
      sent_at_us = sent_at_us;
      fragments = fragments;
    } in
    let past = NotAfter-le t sent_at_us b.frames h v.past in
    let all : SentAfter 0 (b.frames ++ (sent ∷ [])) =
      SentAfter-snoc 0 b.frames sent (omega arith) v.ordered past in
    let (k, o) = prune_frames-Kept b.max_age_us sent_at_us 0 _ all in
    record {
      ordered = o;
      past =
          prune_frames-All (λ s. s.sent_at_us ≤ sent_at_us) b.max_age_us sent_at_us _
            (NotAfter-snoc sent_at_us b.frames sent (omega arith) past);
      kept = k;
    }

prune-IsValid :
    (b : RetransmitBuffer) (t now_us : ℕ)
    → IsValid t b
    → t ≤ now_us
    → IsValid now_us (prune b now_us)
unfolding prune
prune-IsValid b t now_us v h =
    let (k, o) = prune_frames-Kept b.max_age_us now_us 0 b.frames v.ordered in
    record {
      ordered = o;
      past =
          prune_frames-All (λ s. s.sent_at_us ≤ now_us) b.max_age_us now_us b.frames
            (NotAfter-le t now_us b.frames h v.past);
      kept = k;
    }

-- Answering a request no earlier than the last call keeps the frames in the order of their sending,
-- and none older than the limit.
pub lookup-IsValid :
    (b : RetransmitBuffer) (t : ℕ) (nack : Nack) (now_us : ℕ)
    → IsValid t b
    → t ≤ now_us
    → IsValid now_us (lookup b nack now_us).0
unfolding lookup
lookup-IsValid b t nack now_us v h = ground (arith, prune-IsValid b t now_us v h)

-- A request for a frame that is still held is answered with the fragments that it names.
pub lookup_found :
    (b : RetransmitBuffer) (nack : Nack) (now_us : ℕ) (sent : Sent)
    → find_frame nack.frame_number (prune b now_us).frames ≡ some sent
    → (lookup b nack now_us).1 ≡ select_fragments sent.fragments nack.missing
unfolding lookup
lookup_found b nack now_us sent e = ground (arith, e)
