-- ===== src/Net/Repair.antt =====
-- A repair across the network: the receiver asks for what it misses, the sender's buffer answers,
-- and the answer completes the frame.
use castr.Base.{
  ℕ, zero, suc, ◌+◌, ◌≤◌, ◌<◌, ◌≡◌, inl, inr, refl, ap, sym, subst, ◌∙◌, arith, Bool, true, false,
  Option, none, some, List, [], ◌∷◌, length, get_elem?, get_or, any, flatten, ◌==◌,
}
use castr.Base.Maps
use castr.Base.Words.{IsU32, IsU64}
use castr.Base.Bytes.{Bytes}
use castr.Proto.Packetize.{Packetizer, fragments, budget, packetize}
use castr.Proto.Packetize.Laws.{length-fragments}
use castr.Base.Chunks.{chunks, flatten-chunks}
use castr.Proto.Reassemble.{Reassembler, Partial, Nack, is_stale, is_refused, deliver, missing_from}
use castr.Proto.Reassemble.Delivery.{
  Assembling, Below, Occurs, arrivals, deliver-Assembling, deliver-some, start-Assembling,
  length-Agree,
}
use castr.Proto.Reassemble.Repair.{missing_from_lem}
use castr.Proto.Packetize.Sizes.{budget_pos}
use castr.Proto.RoundTrip.{schedule, packetize-some, chunks_pos, schedule-arrivals}
use castr.Net.Retransmit
use castr.Net.Retransmit.Laws.{lookup_found}
use castr.Net.Retransmit.{RetransmitBuffer, Sent, prune, find_frame, select_fragments}

-- Datagrams that arrive together.
abbrev pub at_time : ℕ → List Bytes → List (Bytes × ℕ)
at_time now_us [] = []
at_time now_us (d ∷ ds) = (d, now_us) ∷ at_time now_us ds

abbrev timed : ℕ → List ℕ → List (ℕ × ℕ)
timed now_us [] = []
timed now_us (i ∷ is) = (i, now_us) ∷ timed now_us is

Occurs-timed :
    (now_us j : ℕ) (is : List ℕ) → any (λ n. n == j) is ≡ true → Occurs j (timed now_us is)
Occurs-timed now_us j [] e = cc
Occurs-timed now_us j (i ∷ is) e = ground (arith, Occurs-timed now_us j is)

get_elem?-get_or :
    (ds : List Bytes) (i : ℕ) → i < length ds → get_elem? ds i ≡ some (get_or ds i [])
get_elem?-get_or [] i h = elim h [ ]
get_elem?-get_or (d ∷ ds) zero h = refl
get_elem?-get_or (d ∷ ds) (suc i) h = get_elem?-get_or ds i (omega arith)

select_fragments-schedule :
    (now_us : ℕ) (ds : List Bytes) (is : List ℕ)
    → Below (length ds) (timed now_us is)
    → at_time now_us (select_fragments ds is) ≡ schedule ds (timed now_us is)
unfolding select_fragments
select_fragments-schedule now_us ds [] b = refl
select_fragments-schedule now_us ds (i ∷ is) b =
    ground (arith, get_elem?-get_or ds i b.0, select_fragments-schedule now_us ds is b.1)

Below-missing_from :
    (now_us n i : ℕ) (ps : List (Option Bytes))
    → i + length ps ≤ n
    → n ≤ 65536
    → Below n (timed now_us (missing_from i ps))
unfolding missing_from
Below-missing_from now_us n i [] h k = tt
Below-missing_from now_us n i (none ∷ ps) h k =
    (omega arith, Below-missing_from now_us n (i + 1) ps (omega arith) k)
Below-missing_from now_us n i (some p ∷ ps) h k =
    Below-missing_from now_us n (i + 1) ps (omega arith) k

is_refused-none :
    (ps : List (Option Bytes)) (j : ℕ) → is_refused ps j ≡ false → get_elem? ps j ≡ some none
unfolding is_refused
is_refused-none ps j e = ground arith

module _ (stream : ℕ) (keyframe : Bool) (timestamp_us f : ℕ) (cs : List Bytes)
    (some_cs : 0 < length cs) (few_cs : length cs ≤ 65535) (s : stream < 2) (t : IsU64 timestamp_us)
    (u : IsU32 f) where
  abbrev sent_fragments : List Bytes
  sent_fragments = fragments stream keyframe timestamp_us f (length cs) 0 cs

  deliver-missing :
      (r : Reassembler) (ps : List (Option Bytes)) (now_us : ℕ)
      → Assembling stream keyframe timestamp_us f cs some_cs few_cs s t u r ps
      → (r' : Reassembler) × (deliver r
            (at_time now_us (select_fragments sent_fragments (missing_from 0 ps)))
          ≡ some (
            r',
            record {
              stream = stream;
              frame_number = f;
              timestamp_us = timestamp_us;
              keyframe = keyframe;
              bytes = flatten cs;
            }
                ∷ [],
          ))
  deliver-missing r ps now_us a =
      let l = length-Agree ps cs a.agree in
      let n = length-fragments stream keyframe timestamp_us f (length cs) 0 cs in
      let b = Below-missing_from now_us (length cs) 0 ps (omega arith) (omega arith) in
      rw
        (
          select_fragments-schedule now_us sent_fragments (missing_from 0 ps)
              (subst (λ m. Below m (timed now_us (missing_from 0 ps))) (sym n) b),
          schedule-arrivals stream keyframe timestamp_us f cs some_cs few_cs s t u
              (timed now_us (missing_from 0 ps)) b,
        )
        (deliver-Assembling stream keyframe timestamp_us f cs some_cs few_cs s t u r ps
          (timed now_us (missing_from 0 ps)) a b
          (λ j e.
            Occurs-timed now_us j (missing_from 0 ps)
              ((missing_from_lem 0 j j ps (omega arith) (omega arith)).1 (is_refused-none ps j e))))

  -- Some of the datagrams have come and no frame is out: the rest, asked for, completes it.
  repair-fragments :
      (r r1 : Reassembler) (js : List (ℕ × ℕ)) (entry : Partial) (whole : Bytes) (now_us : ℕ)
      → flatten cs ≡ whole
      → is_stale r f ≡ false
      → Maps.lookup f r.partial ≡ none
      → Below (length cs) js
      → deliver r (schedule sent_fragments js) ≡ some (r1, [])
      → Maps.lookup f r1.partial ≡ some entry
      → (r' : Reassembler) × (deliver r1
            (at_time now_us (select_fragments sent_fragments (missing_from 0 entry.parts)))
          ≡ some (
            r',
            record {
              stream = stream;
              frame_number = f;
              timestamp_us = timestamp_us;
              keyframe = keyframe;
              bytes = whole;
            }
                ∷ [],
          ))
  repair-fragments r r1 js entry whole now_us w e n b d q =
      elim (deliver-some stream keyframe timestamp_us f cs some_cs few_cs s t u r _ js
        (start-Assembling stream keyframe timestamp_us f cs some_cs few_cs s t u r e n) b) [
          | inl (r2, ps, o, a) ↦ found r2 ps a (cc (same, o))
          | inr (r2, o) ↦ absurd (cc (same, o))
        ]
    where
      same :
          deliver r (arrivals stream keyframe timestamp_us f cs some_cs few_cs s t u js)
          ≡ some (r1, [])
      same = rw (schedule-arrivals stream keyframe timestamp_us f cs some_cs few_cs s t u js b) at d

      found :
          (r2 : Reassembler) (ps : List (Option Bytes))
          → Assembling stream keyframe timestamp_us f cs some_cs few_cs s t u r2 ps
          → r2 ≡ r1
          → (r' : Reassembler) × (deliver r1
                (at_time now_us (select_fragments sent_fragments (missing_from 0 entry.parts)))
              ≡ some (
                r',
                record {
                  stream = stream;
                  frame_number = f;
                  timestamp_us = timestamp_us;
                  keyframe = keyframe;
                  bytes = whole;
                }
                    ∷ [],
              ))
      found r2 ps a g = elim a.entry [
        | inl (z, _) ↦ absurd (cc (ap (λ (x : Reassembler). Maps.lookup f x.partial) g))
        | inr (p, z, y) ↦
            (let i : p ≡ entry = cc (ap (λ (x : Reassembler). Maps.lookup f x.partial) g) in
              let k : ps ≡ entry.parts = sym y.parts_eq ∙ ap (λ (x : Partial). x.parts) i in
              rw (← g, ← k, ← w) (deliver-missing r2 ps now_us a))
      ]

-- Some datagrams of a packetized frame, of a stream of the protocol and with its time and number in
-- range, have been delivered to a reassembler that had not seen it, and the frame is not out; the
-- sender still holds what it sent. Then the fragments that the sender answers to a request for all
-- that the receiver misses, once delivered, make the receiver put out the whole frame.
pub deliver-lookup :
    (p : Packetizer) (stream : ℕ) (keyframe : Bool) (timestamp_us x : ℕ) (xs : Bytes)
    (max_datagram : ℕ) (p' : Packetizer) (ds : List Bytes) (r r1 : Reassembler) (js : List (ℕ × ℕ))
    (entry : Partial) (b : RetransmitBuffer) (sent : Sent) (asked_us now_us : ℕ)
    → packetize p stream keyframe timestamp_us (x ∷ xs) max_datagram ≡ some (p', ds)
    → stream < 2
    → IsU64 timestamp_us
    → IsU32 p.next_frame
    → is_stale r p.next_frame ≡ false
    → Maps.lookup p.next_frame r.partial ≡ none
    → Below (length ds) js
    → deliver r (schedule ds js) ≡ some (r1, [])
    → Maps.lookup p.next_frame r1.partial ≡ some entry
    → find_frame p.next_frame (prune b asked_us).frames ≡ some sent
    → sent.fragments ≡ ds
    → (let nack : Nack = record {
      frame_number = p.next_frame;
      missing = missing_from 0 entry.parts;
    } in
        (r' : Reassembler) × (deliver r1 (at_time now_us (Retransmit.lookup b nack asked_us).1)
          ≡ some (
            r',
            record {
              stream = stream;
              frame_number = p.next_frame;
              timestamp_us = timestamp_us;
              keyframe = keyframe;
              bytes = x ∷ xs;
            }
                ∷ [],
          )))
deliver-lookup p stream keyframe timestamp_us x xs max_datagram p' ds r r1 js entry b sent asked_us
      now_us e s t u fr n bl d q fs sf =
    let (few, _, g) = packetize-some p stream keyframe timestamp_us x xs max_datagram p' ds e in
    let cs = chunks (budget max_datagram) (x ∷ xs) in
    let l : length ds ≡ length cs =
      ap length g ∙ length-fragments stream keyframe timestamp_us p.next_frame (length cs) 0 cs in
    rw (answer, g)
      (repair-fragments stream keyframe timestamp_us p.next_frame cs
        (chunks_pos (budget max_datagram) x xs (budget_pos max_datagram)) few s t u r r1 js entry
        (x ∷ xs) now_us (flatten-chunks (budget max_datagram) (x ∷ xs) (budget_pos max_datagram)) fr
        n (subst (λ m. Below m js) l bl)
        (subst (λ z. deliver r (schedule z js) ≡ some (r1, [])) g d) q)
  where
    answer :
        (Retransmit.lookup b
          (record { frame_number = p.next_frame; missing = missing_from 0 entry.parts })
          asked_us).1
        ≡ select_fragments ds (missing_from 0 entry.parts)
    answer =
        lookup_found b _ asked_us sent fs
        ∙ ap (λ z. select_fragments z (missing_from 0 entry.parts)) sf
