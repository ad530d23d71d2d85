-- ===== src/Proto/Reassemble/Laws.antt =====
-- The invariant of the reassembler, and that `push` and `tick` keep it and do not panic.
use castr.Base.{
  ℕ, zero, suc, ◌+◌, ◌≤◌, ◌<◌, ◌≡◌, inl, inr, refl, arith, max, false, Option, none, some, List, [],
  ◌∷◌, ◌++◌, length, set, replicate, All, Bool-cases, Option-cases, Returns, length-replicate,
  unwrap_or, ltb, ltb→lt, Result, ok, err,
}
use castr.Base.Maps.{
  lookup, insert, remove, IsAscending, insert-IsAscending, remove-IsAscending, All-insert,
  All-remove, All-lookup, All-remove-insert,
}
use castr.Base.Bytes.{Bytes}
use castr.Proto.Header.{DatagramHeader, HeaderError, decode}
use castr.Proto.Reassemble.{
  CompleteFrame, Partial, Reassembler, is_stale, is_refused, concat_parts, complete, push_entry,
  push_fragment, new_partial, new, push, tick, remove_all,
}

-- How many parts have come.
abbrev pub count_some : List (Option Bytes) → ℕ
count_some [] = 0
count_some (none ∷ ps) = count_some ps
count_some (some p ∷ ps) = suc (count_some ps)

-- The counter is right, and something is still missing.
pub record IsPending (p : Partial) : Type 0 where
  pub counted : p.received ≡ count_some p.parts
  pub waiting : p.received < length p.parts

pub record IsValid (r : Reassembler) : Type 0 where
  pub ordered : IsAscending r.partial
  pub entries : All (λ e. IsPending e.1) r.partial

pub count_some-replicate : (n : ℕ) → count_some (replicate n none) ≡ 0
count_some-replicate zero = refl
count_some-replicate (suc n) = count_some-replicate n

pub count_some-set :
    (ps : List (Option Bytes)) (i : ℕ) (x : Bytes)
    → is_refused ps i ≡ false
    → count_some (set ps i (some x)) ≡ suc (count_some ps)
unfolding is_refused
count_some-set [] i x e = cc
count_some-set (none ∷ ps) zero x e = refl
count_some-set (some p ∷ ps) zero x e = cc
count_some-set (none ∷ ps) (suc i) x e = count_some-set ps i x e
count_some-set (some p ∷ ps) (suc i) x e = omega (arith, count_some-set ps i x e)

pub count_some-le : (ps : List (Option Bytes)) → count_some ps ≤ length ps
count_some-le [] = omega arith
count_some-le (none ∷ ps) = omega (arith, count_some-le ps)
count_some-le (some p ∷ ps) = omega (arith, count_some-le ps)

-- With every part there the unwrapping does not panic.
pub concat_parts_full :
    (ps : List (Option Bytes))
    → length ps ≤ count_some ps
    → (bytes : Bytes) × (concat_parts ps ≡ some bytes)
unfolding concat_parts
concat_parts_full [] h = ([], refl)
concat_parts_full (none ∷ ps) h = absurd (omega (arith, count_some-le ps))
concat_parts_full (some p ∷ ps) h =
    let (rest, e) = concat_parts_full ps (omega arith) in (p ++ rest, rw e)

new_partial-IsPending : (h : DatagramHeader) (now_us : ℕ) → IsPending (new_partial h now_us)
unfolding new_partial
new_partial-IsPending h now_us = omega (
  arith,
  count_some-replicate (max h.fragment_count 1),
  length-replicate {0} {A = Option Bytes} (max h.fragment_count 1) none,
)

entry-IsPending :
    (r : Reassembler) (h : DatagramHeader) (now_us : ℕ)
    → IsValid r
    → IsPending (unwrap_or (lookup h.frame_number r.partial) (new_partial h now_us))
entry-IsPending r h now_us v = elim (Option-cases (lookup h.frame_number r.partial)) [
  | inl e ↦ rw e (new_partial-IsPending h now_us)
  | inr (p, e) ↦ rw e (All-lookup IsPending h.frame_number r.partial p v.entries e)
]

insert-IsValid :
    (r : Reassembler) (f : ℕ) (p : Partial)
    → IsValid r
    → IsPending p
    → IsValid (record r { partial = insert f p r.partial })
insert-IsValid r f p v q = record {
  ordered = insert-IsAscending f p r.partial v.ordered;
  entries = All-insert IsPending f p r.partial q v.entries;
}

complete-IsValid :
    (r : Reassembler) (f : ℕ) (p : Partial)
    → IsValid r
    → length p.parts ≤ count_some p.parts
    → Returns (λ x. IsValid x.0) (complete (record r { partial = insert f p r.partial }) f p)
unfolding complete
complete-IsValid r f p v h =
    let (bytes, e) = concat_parts_full p.parts h in
    rw (e, Returns)
      (record {
        ordered = remove-IsAscending f _ (insert-IsAscending f p r.partial v.ordered);
        entries = All-remove-insert IsPending f p r.partial v.entries;
      })

filled-counted :
    (p : Partial) (idx : ℕ) (payload : Bytes)
    → IsPending p
    → is_refused p.parts idx ≡ false
    → p.received + 1 ≡ count_some (set p.parts idx (some payload))
filled-counted p idx payload q e = omega (arith, count_some-set p.parts idx payload e)

full :
    (p : Partial) (idx : ℕ) (payload : Bytes)
    → IsPending p
    → is_refused p.parts idx ≡ false
    → ltb (p.received + 1) (length (set p.parts idx (some payload))) ≡ false
    → length (set p.parts idx (some payload)) ≤ count_some (set p.parts idx (some payload))
full p idx payload q e e' = let n = filled-counted p idx payload q e in ground arith

push_entry-IsValid :
    (r : Reassembler) (p : Partial) (f idx : ℕ) (payload : Bytes)
    → IsValid r
    → IsPending p
    → Returns (λ x. IsValid x.0) (push_entry r p f idx payload)
unfolding push_entry
push_entry-IsValid r p f idx payload v q = elim (Bool-cases (is_refused p.parts idx)) [
  | inl e ↦ rw (e, Returns) (insert-IsValid r f p v q)
  | inr e ↦
      rw (e, Returns)
        (elim (Bool-cases (ltb (p.received + 1) (length (set p.parts idx (some payload))))) [
          | inl e' ↦
              rw (e', Returns)
                (insert-IsValid r f _ v
                  (record { counted = filled-counted p idx payload q e; waiting = ltb→lt _ _ e' }))
          | inr e' ↦ rw (e', Returns) (complete-IsValid r f _ v (full p idx payload q e e'))
        ])
]

push_fragment-IsValid :
    (r : Reassembler) (h : DatagramHeader) (payload : Bytes) (now_us : ℕ)
    → IsValid r
    → Returns (λ x. IsValid x.0) (push_fragment r h payload now_us)
unfolding push_fragment
push_fragment-IsValid r h payload now_us v = elim (Bool-cases (is_stale r h.frame_number)) [
  | inl e ↦ rw (e, Returns) v
  | inr e ↦
      rw (e, Returns)
        (push_entry-IsValid r _ h.frame_number h.fragment_index payload v
          (entry-IsPending r h now_us v))
]

-- In a state that has the invariant, `push` does not panic on any datagram, and keeps it.
pub push-IsValid :
    (r : Reassembler) (datagram : Bytes) (now_us : ℕ)
    → IsValid r
    → Returns (λ x. IsValid x.0) (push r datagram now_us)
unfolding push
push-IsValid r datagram now_us v = go (decode datagram)
  where
    answer :
        (m : Option (Reassembler × Option CompleteFrame))
        → Returns (λ x. IsValid x.0) m
        → Returns
            (λ (x : Reassembler × Result (Option CompleteFrame) HeaderError). IsValid x.0)
            (elim m [ none ↦ none | some (r', frame) ↦ some (r', ok frame) ])
    answer none b = b
    answer (some x) b = b

    go :
        (d : Result (DatagramHeader × Bytes) HeaderError)
        → Returns
            (λ (x : Reassembler × Result (Option CompleteFrame) HeaderError). IsValid x.0)
            (elim d [
              | err e ↦ some (r, err e)
              | ok (h, payload) ↦ elim (push_fragment r h payload now_us) [
                | none ↦ none
                | some (r', frame) ↦ some (r', ok frame)
              ]
            ])
    go (err e) = v
    go (ok (h, payload)) = answer _ (push_fragment-IsValid r h payload now_us v)

remove_all-IsAscending :
    (fs : List ℕ) (m : List (ℕ × Partial)) → IsAscending m → IsAscending (remove_all fs m)
unfolding remove_all
remove_all-IsAscending [] m a = a
remove_all-IsAscending (f ∷ fs) m a =
    remove_all-IsAscending fs (remove f m) (remove-IsAscending f m a)

remove_all-All :
    (fs : List ℕ) (m : List (ℕ × Partial))
    → All (λ e. IsPending e.1) m
    → All (λ e. IsPending e.1) (remove_all fs m)
unfolding remove_all
remove_all-All [] m a = a
remove_all-All (f ∷ fs) m a = remove_all-All fs (remove f m) (All-remove IsPending f m a)

-- `tick` keeps the invariant.
pub tick-IsValid :
    (r : Reassembler) (now_us rtt_us repair_window_us : ℕ)
    → IsValid r
    → IsValid (tick r now_us rtt_us repair_window_us).0
unfolding tick
tick-IsValid r now_us rtt_us repair_window_us v = record {
  ordered = remove_all-IsAscending _ r.partial v.ordered;
  entries = remove_all-All _ r.partial v.entries;
}

-- A new reassembler has the invariant.
pub new-IsValid : (max_age_us : ℕ) → IsValid (new max_age_us)
unfolding new
new-IsValid max_age_us = record { ordered = tt; entries = tt }

-- `push` of a datagram that is decoded is `push_fragment` of its header and payload.
pub push_decoded :
    (r : Reassembler) (datagram : Bytes) (now_us : ℕ) (h : DatagramHeader) (c : Bytes)
    (x : Reassembler × Option CompleteFrame)
    → decode datagram ≡ ok (h, c)
    → push_fragment r h c now_us ≡ some x
    → push r datagram now_us ≡ some (x.0, ok x.1)
unfolding push
push_decoded r datagram now_us h c x e q = ground arith
