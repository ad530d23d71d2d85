-- ===== src/Proto/Reassemble/Delivery.antt =====
-- A frame's datagrams, in any order and with duplicates, give the frame back, once.
use castr.Base.{
  ℕ, zero, suc, ◌+◌, ◌%◌, ◌≤◌, ◌<◌, ◌≡◌, ◌≢◌, ◌⊎◌, inl, inr, refl, ap, sym, subst, ◌∙◌, arith, max,
  Bool, true, false, Option, none, some, List, [], ◌∷◌, ◌++◌, length, get_or, set, replicate,
  flatten, Bool-cases, unwrap_or, ltb, ltb→lt, ok, ==_refl,
}
use castr.Base.Maps.{lookup, insert, remove, lookup-insert, lookup-remove}
use castr.Base.Words.{IsU32, IsU64}
use castr.Base.Bytes.{Bytes}
use castr.Proto.Header.{DatagramHeader, encode}
use castr.Proto.Header.Codec.{decode-encode}
use castr.Proto.Packetize.{fragment_header}
use castr.Proto.Packetize.Laws.{fragment_header-IsValid, is_keyframe-fragment}
use castr.Proto.Reassemble.{
  CompleteFrame, Partial, Reassembler, is_stale, is_refused, concat_parts, complete, push_entry,
  push_fragment, new_partial, push, advance, deliver,
}
use castr.Proto.Reassemble.Laws.{
  count_some, count_some-replicate, count_some-set, count_some-le, push_decoded,
}

-- The parts that have come are those of the frame.
abbrev pub Agree : List (Option Bytes) → List Bytes → Type 0
Agree [] [] = Unit
Agree [] (c ∷ cs) = ⊥
Agree (p ∷ ps) [] = ⊥
Agree (none ∷ ps) (c ∷ cs) = Agree ps cs
Agree (some x ∷ ps) (c ∷ cs) = (x ≡ c) × Agree ps cs

Agree-replicate : (cs : List Bytes) → Agree (replicate (length cs) none) cs
Agree-replicate [] = tt
Agree-replicate (c ∷ cs) = Agree-replicate cs

pub length-Agree :
    (ps : List (Option Bytes)) (cs : List Bytes) → Agree ps cs → length ps ≡ length cs
length-Agree [] [] a = refl
length-Agree [] (c ∷ cs) a = absurd a
length-Agree (p ∷ ps) [] a = absurd a
length-Agree (none ∷ ps) (c ∷ cs) a = ap suc (length-Agree ps cs a)
length-Agree (some x ∷ ps) (c ∷ cs) a = ap suc (length-Agree ps cs a.1)

Agree-set :
    (ps : List (Option Bytes)) (cs : List Bytes) (i : ℕ)
    → Agree ps cs
    → Agree (set ps i (some (get_or cs i []))) cs
Agree-set [] [] i a = tt
Agree-set [] (c ∷ cs) i a = absurd a
Agree-set (p ∷ ps) [] i a = absurd a
Agree-set (none ∷ ps) (c ∷ cs) zero a = (refl, a)
Agree-set (some x ∷ ps) (c ∷ cs) zero a = (refl, a.1)
Agree-set (none ∷ ps) (c ∷ cs) (suc i) a = Agree-set ps cs i a
Agree-set (some x ∷ ps) (c ∷ cs) (suc i) a = (a.0, Agree-set ps cs i a.1)

-- A part that has come is written over with itself.
set-Agree :
    (ps : List (Option Bytes)) (cs : List Bytes) (i : ℕ)
    → Agree ps cs
    → i < length cs
    → is_refused ps i ≡ true
    → set ps i (some (get_or cs i [])) ≡ ps
unfolding is_refused
set-Agree [] [] i a h e = elim h [ ]
set-Agree [] (c ∷ cs) i a h e = absurd a
set-Agree (p ∷ ps) [] i a h e = absurd a
set-Agree (none ∷ ps) (c ∷ cs) zero a h e = cc
set-Agree (some x ∷ ps) (c ∷ cs) zero a h e = cc (a.0)
set-Agree (none ∷ ps) (c ∷ cs) (suc i) a h e =
    ap (λ t. none ∷ t) (set-Agree ps cs i a (omega arith) e)
set-Agree (some x ∷ ps) (c ∷ cs) (suc i) a h e =
    ap (λ t. some x ∷ t) (set-Agree ps cs i a.1 (omega arith) e)

concat_parts-Agree :
    (ps : List (Option Bytes)) (cs : List Bytes)
    → Agree ps cs
    → length cs ≤ count_some ps
    → concat_parts ps ≡ some (flatten cs)
unfolding concat_parts
concat_parts-Agree [] [] a h = refl
concat_parts-Agree [] (c ∷ cs) a h = absurd a
concat_parts-Agree (p ∷ ps) [] a h = absurd a
concat_parts-Agree (none ∷ ps) (c ∷ cs) a h =
    absurd (omega (arith, count_some-le ps, length-Agree ps cs a))
concat_parts-Agree (some x ∷ ps) (c ∷ cs) a h =
    rw (concat_parts-Agree ps cs a.1 (omega arith)) (ap (λ t. some (t ++ flatten cs)) a.0)

-- Something that has not come, if anything has not.
gap :
    (ps : List (Option Bytes))
    → count_some ps < length ps
    → (i : ℕ) × (i < length ps) × (is_refused ps i ≡ false)
unfolding is_refused
gap [] h = elim h [ ]
gap (none ∷ ps) h = (0, omega arith, refl)
gap (some x ∷ ps) h = let (i, l, e) = gap ps (omega arith) in (suc i, omega arith, e)

gap-set :
    (ps : List (Option Bytes)) (i j : ℕ) (x : Bytes)
    → is_refused (set ps i (some x)) j ≡ false
    → (j ≢ i) × (is_refused ps j ≡ false)
unfolding is_refused
gap-set [] i j x e = absurd (cc)
gap-set (p ∷ ps) zero zero x e = absurd (cc)
gap-set (p ∷ ps) zero (suc j) x e = ((λ q. omega arith), e)
gap-set (p ∷ ps) (suc i) zero x e = ((λ q. omega arith), e)
gap-set (p ∷ ps) (suc i) (suc j) x e =
    let (n, r) = gap-set ps i j x e in ((λ q. n (omega arith)), r)

gap-replicate : (n j : ℕ) → is_refused (replicate n none) j ≡ false → j < n
unfolding is_refused
gap-replicate zero j e = absurd (cc)
gap-replicate (suc n) zero e = omega arith
gap-replicate (suc n) (suc j) e = omega (arith, gap-replicate n j e)

-- `i` occurs among the first components.
abbrev pub Occurs : ℕ → List (ℕ × ℕ) → Type 0
Occurs i [] = ⊥
Occurs i ((j, t) ∷ js) = (i ≡ j) ⊎ Occurs i js

abbrev pub Below : ℕ → List (ℕ × ℕ) → Type 0
Below n [] = Unit
Below n ((j, t) ∷ js) = (j < n) × Below n js

module _ (stream : ℕ) (keyframe : Bool) (timestamp_us f : ℕ) (cs : List Bytes)
    (some_cs : 0 < length cs) (few_cs : length cs ≤ 65535) (s : stream < 2) (t : IsU64 timestamp_us)
    (u : IsU32 f) where
  abbrev pub header : ℕ → DatagramHeader
  header i = fragment_header stream keyframe timestamp_us f (length cs) i

  abbrev pub datagram : ℕ → Bytes
  datagram i = encode (header i) ++ get_or cs i []

  abbrev pub frame : CompleteFrame
  frame = record {
    stream = stream;
    frame_number = f;
    timestamp_us = timestamp_us;
    keyframe = keyframe;
    bytes = flatten cs;
  }

  pub record Describes (p : Partial) (ps : List (Option Bytes)) : Type 0 where
    pub stream_eq : p.stream ≡ stream
    pub time_eq : p.timestamp_us ≡ timestamp_us
    pub key_eq : p.keyframe ≡ keyframe
    pub parts_eq : p.parts ≡ ps
    pub received_eq : p.received ≡ count_some ps

  pub record Assembling (r : Reassembler) (ps : List (Option Bytes)) : Type 0 where
    pub fresh : is_stale r f ≡ false
    pub entry :
        ((lookup f r.partial ≡ none) × (ps ≡ replicate (length cs) none))
        ⊎ ((p : Partial) × (lookup f r.partial ≡ some p) × Describes p ps)
    pub agree : Agree ps cs
    pub waits : count_some ps < length cs

  new_partial-Describes :
      (i now_us : ℕ) → Describes (new_partial (header i) now_us) (replicate (length cs) none)
  unfolding new_partial fragment_header
  new_partial-Describes i now_us = record {
    stream_eq = refl;
    time_eq = refl;
    key_eq = is_keyframe-fragment stream keyframe timestamp_us f (length cs) i;
    parts_eq =
        let e : max (length cs % 65536) 1 ≡ length cs = omega arith in ap (λ n. replicate n none) e;
    received_eq = sym (count_some-replicate (length cs));
  }

  entry-Describes :
      (r : Reassembler) (ps : List (Option Bytes)) (i now_us : ℕ)
      → Assembling r ps
      → Describes (unwrap_or (lookup f r.partial) (new_partial (header i) now_us)) ps
  entry-Describes r ps i now_us a = elim a.entry [
    | inl (e, q) ↦ rw (e, q) (new_partial-Describes i now_us)
    | inr (p, e, d) ↦ rw e d
  ]

  push_fragment_entry :
      (r : Reassembler) (i now_us : ℕ) (c : Bytes)
      → is_stale r f ≡ false
      → i < length cs
      → push_fragment r (header i) c now_us
        ≡ push_entry r (unwrap_or (lookup f r.partial) (new_partial (header i) now_us)) f i c
  unfolding push_fragment fragment_header
  push_fragment_entry r i now_us c e h = rw e (
      let q : i % 65536 ≡ i = omega arith in
      ap (λ k. push_entry r (unwrap_or (lookup f r.partial) (new_partial (header i) now_us)) f k c)
        q)

  push-datagram :
      (r : Reassembler) (i now_us : ℕ) (x : Reassembler × Option CompleteFrame)
      → is_stale r f ≡ false
      → i < length cs
      → push_entry r
          (unwrap_or (lookup f r.partial) (new_partial (header i) now_us))
          f
          i
          (get_or cs i [])
        ≡ some x
      → push r (datagram i) now_us ≡ some (x.0, ok x.1)
  push-datagram r i now_us x e h q =
      push_decoded r (datagram i) now_us (header i) (get_or cs i []) x
        (decode-encode (header i) (get_or cs i [])
          (fragment_header-IsValid stream keyframe timestamp_us f (length cs) i s t u))
        (push_fragment_entry r i now_us (get_or cs i []) e h ∙ q)

  -- A frame that is being assembled is not stale.
  is_stale-insert :
      (r : Reassembler) (p : Partial)
      → is_stale (record r { partial = insert f p r.partial }) f ≡ false
  unfolding is_stale
  is_stale-insert r p = ground (arith, lookup-insert f f p r.partial)

  -- A frame that is done is stale.
  is_stale-remove :
      (r : Reassembler)
      → is_stale
          (record r {
            partial = remove f r.partial;
            newest_completed = advance r.newest_completed f;
          })
          f
        ≡ true
  unfolding is_stale advance
  is_stale-remove r = ground (arith, lookup-remove f f r.partial)

  stored-Assembling :
      (r : Reassembler) (p : Partial) (ps : List (Option Bytes))
      → Describes p ps
      → Agree ps cs
      → count_some ps < length cs
      → Assembling (record r { partial = insert f p r.partial }) ps
  stored-Assembling r p ps d a w = record {
    fresh = is_stale-insert r p;
    entry = inr (p, (lookup-insert f f p r.partial ∙ rw (==_refl f)), d);
    agree = a;
    waits = w;
  }

  -- What one datagram does: it leaves the frame in assembly with its part there, or completes it.
  abbrev Stepped :
      Reassembler → List (Option Bytes) → ℕ → Option (Reassembler × Option CompleteFrame) → Type 0
  Stepped r ps i x =
      ((r' : Reassembler) × (x ≡ some (r', none))
        × Assembling r' (set ps i (some (get_or cs i []))))
      ⊎ ((r' : Reassembler) × (x ≡ some (r', some frame)) × (is_stale r' f ≡ true))

  complete-frame :
      (r : Reassembler) (p : Partial)
      → Describes p p.parts
      → Agree p.parts cs
      → length cs ≤ count_some p.parts
      → complete (record r { partial = insert f p r.partial }) f p
        ≡ some (
          record r {
            partial = remove f (insert f p r.partial);
            newest_completed = advance r.newest_completed f;
          },
          some frame,
        )
  unfolding complete
  complete-frame r p d a h = ground (arith, concat_parts-Agree p.parts cs a h)

  push_entry-Stepped :
      (r : Reassembler) (p : Partial) (i : ℕ)
      → Describes p p.parts
      → Agree p.parts cs
      → count_some p.parts < length cs
      → i < length cs
      → Stepped r p.parts i (push_entry r p f i (get_or cs i []))
  unfolding push_entry
  push_entry-Stepped r p i d a w h = elim (Bool-cases (is_refused p.parts i)) [
    | inl e ↦ inl (
      record r { partial = insert f p r.partial },
      rw e,
      subst (λ ps. Assembling (record r { partial = insert f p r.partial }) ps)
          (sym (set-Agree p.parts cs i a h e)) (stored-Assembling r p p.parts d a w),
    )
    | inr e ↦ more e
  ]
    where
      c : Bytes
      c = get_or cs i []

      p' : Partial
      p' = record p { parts = set p.parts i (some c); received = p.received + 1 }

      d' : is_refused p.parts i ≡ false → Describes p' p'.parts
      d' e = record {
        stream_eq = d.stream_eq;
        time_eq = d.time_eq;
        key_eq = d.key_eq;
        parts_eq = refl;
        received_eq = omega (arith, count_some-set p.parts i c e, d.received_eq);
      }

      a' : Agree p'.parts cs
      a' = Agree-set p.parts cs i a

      full :
          is_refused p.parts i ≡ false
          → ltb (p.received + 1) (length p'.parts) ≡ false
          → length cs ≤ count_some p'.parts
      full e q = let l = length-Agree p'.parts cs a' in let k = (d' e).received_eq in ground arith

      more : is_refused p.parts i ≡ false → Stepped r p.parts i (push_entry r p f i c)
      more e = elim (Bool-cases (ltb (p.received + 1) (length p'.parts))) [
        | inl q ↦ inl (
          record r { partial = insert f p' r.partial },
          rw (e, q),
          stored-Assembling r p' p'.parts (d' e) a'
              (omega (arith, ltb→lt _ _ q, length-Agree p'.parts cs a', (d' e).received_eq)),
        )
        | inr q ↦ inr (
          _,
          rw (e, q) (complete-frame r p' (d' e) a' (full e q)),
          is_stale-remove (record r { partial = insert f p' r.partial }),
        )
      ]

  push-Stepped :
      (r : Reassembler) (ps : List (Option Bytes)) (i now_us : ℕ)
      → Assembling r ps
      → i < length cs
      → ((r' : Reassembler) × (push r (datagram i) now_us ≡ some (r', ok none))
          × Assembling r' (set ps i (some (get_or cs i []))))
        ⊎ ((r' : Reassembler) × (push r (datagram i) now_us ≡ some (r', ok (some frame)))
            × (is_stale r' f ≡ true))
  push-Stepped r ps i now_us a h = elim stepped [
    | inl (r', e, b) ↦ inl (r', push-datagram r i now_us (r', none) a.fresh h e, b)
    | inr (r', e, b) ↦ inr (r', push-datagram r i now_us (r', some frame) a.fresh h e, b)
  ]
    where
      p : Partial
      p = unwrap_or (lookup f r.partial) (new_partial (header i) now_us)

      d : Describes p ps
      d = entry-Describes r ps i now_us a

      stepped : Stepped r ps i (push_entry r p f i (get_or cs i []))
      stepped =
          subst (λ qs. Stepped r qs i (push_entry r p f i (get_or cs i []))) d.parts_eq
            (push_entry-Stepped r p i
              (record {
                stream_eq = d.stream_eq;
                time_eq = d.time_eq;
                key_eq = d.key_eq;
                parts_eq = refl;
                received_eq = d.received_eq ∙ ap count_some (sym d.parts_eq);
              })
              (subst (λ qs. Agree qs cs) (sym d.parts_eq) a.agree)
              (subst (λ qs. count_some qs < length cs) (sym d.parts_eq) a.waits) h)

  push_stale :
      (r : Reassembler) (i now_us : ℕ)
      → is_stale r f ≡ true
      → push r (datagram i) now_us ≡ some (r, ok none)
  push_stale r i now_us e =
      push_decoded r (datagram i) now_us (header i) (get_or cs i []) (r, none)
        (decode-encode (header i) (get_or cs i [])
          (fragment_header-IsValid stream keyframe timestamp_us f (length cs) i s t u))
        (unfold push_fragment fragment_header in rw e)

  abbrev pub arrivals : List (ℕ × ℕ) → List (Bytes × ℕ)
  arrivals [] = []
  arrivals ((i, now_us) ∷ js) = (datagram i, now_us) ∷ arrivals js

  deliver_stale :
      (r : Reassembler) (js : List (ℕ × ℕ))
      → is_stale r f ≡ true
      → deliver r (arrivals js) ≡ some (r, [])
  unfolding deliver
  deliver_stale r [] e = refl
  deliver_stale r ((i, now_us) ∷ js) e =
      ground (arith, push_stale r i now_us e, deliver_stale r js e)

  abbrev pub Delivered : Reassembler → List (ℕ × ℕ) → Type 0
  Delivered r js = (r' : Reassembler) × (deliver r (arrivals js) ≡ some (r', frame ∷ []))

  pub deliver-Assembling :
      (r : Reassembler) (ps : List (Option Bytes)) (js : List (ℕ × ℕ))
      → Assembling r ps
      → Below (length cs) js
      → ((j : ℕ) → is_refused ps j ≡ false → Occurs j js)
      → Delivered r js
  unfolding deliver
  deliver-Assembling r ps [] a b o =
      let (i, l, e) = gap ps (omega (arith, length-Agree ps cs a.agree, a.waits)) in absurd (o i e)
  deliver-Assembling r ps ((i, now_us) ∷ js) a b o = elim (push-Stepped r ps i now_us a b.0) [
    | inl (r', e, a') ↦
        later r' e
          (deliver-Assembling r' (set ps i (some (get_or cs i []))) js a' b.1 (λ j g. rest j g))
    | inr (r', e, q) ↦ (r', ground (arith, e, deliver_stale r' js q))
  ]
    where
      rest : (j : ℕ) → is_refused (set ps i (some (get_or cs i []))) j ≡ false → Occurs j js
      rest j g =
          let (n, m) = gap-set ps i j (get_or cs i []) g in
          elim (o j m) [ inl q ↦ absurd (n q) | inr x ↦ x ]

      later :
          (r' : Reassembler)
          → push r (datagram i) now_us ≡ some (r', ok none)
          → Delivered r' js
          → Delivered r ((i, now_us) ∷ js)
      later r' e (r'', q) = (r'', ground (arith, e, q))

  pub start-Assembling :
      (r : Reassembler)
      → is_stale r f ≡ false
      → lookup f r.partial ≡ none
      → Assembling r (replicate (length cs) none)
  start-Assembling r e n = record {
    fresh = e;
    entry = inl (n, refl);
    agree = Agree-replicate cs;
    waits = omega (arith, count_some-replicate (length cs));
  }

  -- The datagrams of a frame that the reassembler has not seen, arriving in any order and as often
  -- as they like, each at least once, come out as the frame, and once only.
  pub deliver-frame :
      (r : Reassembler) (js : List (ℕ × ℕ))
      → is_stale r f ≡ false
      → lookup f r.partial ≡ none
      → Below (length cs) js
      → ((j : ℕ) → j < length cs → Occurs j js)
      → Delivered r js
  deliver-frame r js e n b o =
      deliver-Assembling r (replicate (length cs) none) js (start-Assembling r e n) b
        (λ j g. o j (gap-replicate (length cs) j g))

  -- Before the last part has come, the frame stays in assembly.
  pub deliver-some :
      (r : Reassembler) (ps : List (Option Bytes)) (js : List (ℕ × ℕ))
      → Assembling r ps
      → Below (length cs) js
      → ((r' : Reassembler) × (qs : List (Option Bytes)) × (deliver r (arrivals js) ≡ some (r', []))
          × Assembling r' qs)
        ⊎ Delivered r js
  unfolding deliver
  deliver-some r ps [] a b = inl (r, ps, refl, a)
  deliver-some r ps ((i, now_us) ∷ js) a b = elim (push-Stepped r ps i now_us a b.0) [
    | inl (r', e, a') ↦ elim (deliver-some r' (set ps i (some (get_or cs i []))) js a' b.1) [
      | inl (r'', qs, q, a'') ↦ inl (r'', qs, ground (arith, e, q), a'')
      | inr (r'', q) ↦ inr (r'', ground (arith, e, q))
    ]
    | inr (r', e, q) ↦ inr (r', ground (arith, e, deliver_stale r' js q))
  ]
