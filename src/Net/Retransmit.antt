-- ===== src/Net/Retransmit.antt =====
-- crates/castr-net/src/retransmit.rs: the sender's buffer of fragments that may be asked for again.
pub mod Laws
use castr.Base.{
  ℕ, ◌-◌, Bool, Option, none, some, List, [], ◌∷◌, ◌++◌, ltb, ◌==◌, if◌then◌else◌, length, is_empty,
  get_elem?,
}
use castr.Base.Bytes.{Bytes}
use castr.Proto.Reassemble.{Nack}

pub record Sent : Type 0 where
  pub frame_number : ℕ
  pub keyframe : Bool
  pub sent_at_us : ℕ
  pub fragments : List Bytes

pub record RetransmitBuffer : Type 0 where
  pub max_age_us : ℕ
  pub frames : List Sent

unfoldable pub new : ℕ → RetransmitBuffer
new max_age_us = record { max_age_us = max_age_us; frames = [] }

unfoldable pub len : RetransmitBuffer → ℕ
len b = length b.frames

unfoldable pub is_empty_buffer : RetransmitBuffer → Bool
is_empty_buffer b = is_empty b.frames

-- The `while let` over the front of the queue.
unfoldable pub prune_frames : ℕ → ℕ → List Sent → List Sent
prune_frames max_age_us now_us [] = []
prune_frames max_age_us now_us (front ∷ rest) =
    if ltb max_age_us (now_us - front.sent_at_us)
    then prune_frames max_age_us now_us rest
    else front ∷ rest

unfoldable pub prune : RetransmitBuffer → ℕ → RetransmitBuffer
prune b now_us = record b { frames = prune_frames b.max_age_us now_us b.frames }

unfoldable pub record_frame : RetransmitBuffer → ℕ → Bool → List Bytes → ℕ → RetransmitBuffer
record_frame b frame_number keyframe fragments sent_at_us =
    let sent : Sent = record {
      frame_number = frame_number;
      keyframe = keyframe;
      sent_at_us = sent_at_us;
      fragments = fragments;
    } in
    prune (record b { frames = b.frames ++ (sent ∷ []) }) sent_at_us

unfoldable pub find_frame : ℕ → List Sent → Option Sent
find_frame frame_number [] = none
find_frame frame_number (s ∷ rest) =
    if s.frame_number == frame_number then some s else find_frame frame_number rest

-- `missing.iter().filter_map(|&i| fragments.get(i))`
unfoldable pub select_fragments : List Bytes → List ℕ → List Bytes
select_fragments fragments [] = []
select_fragments fragments (i ∷ is) = elim (get_elem? fragments i) [
  | none ↦ select_fragments fragments is
  | some d ↦ d ∷ select_fragments fragments is
]

unfoldable pub lookup : RetransmitBuffer → Nack → ℕ → RetransmitBuffer × List Bytes
lookup b nack now_us =
    let b' = prune b now_us in
    elim (find_frame nack.frame_number b'.frames) [
      | none ↦ (b', [])
      | some sent ↦ (b', select_fragments sent.fragments nack.missing)
    ]
