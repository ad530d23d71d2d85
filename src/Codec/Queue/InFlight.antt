-- ===== src/Codec/Queue/InFlight.antt =====
-- How many buffers the driver holds.
use castr.Base.{
  ℕ, zero, suc, ◌+◌, ◌≡◌, ◌≢◌, ◌⊎◌, refl, arith, Bool, not, true, false, Option, none, some, List,
  [], ◌∷◌, ok, get_elem?, set,
}
use castr.Codec.Queue.{
  Ops, Buffer, Queue, Dequeued, buffer, count_queued, unqueued, in_flight, stream_off, queue,
  dequeue,
}

count_queued-set :
    (bs : List Buffer) (i : ℕ) (b : Buffer)
    → get_elem? bs i ≡ some b
    → b.queued ≡ false
    → count_queued (set bs i (record b { queued = true })) ≡ count_queued bs + 1
count_queued-set [] i b e h = cc
count_queued-set (c ∷ bs) zero b e h = ground arith
count_queued-set (c ∷ bs) (suc i) b e h = ground (arith, count_queued-set bs i b e h)

-- There is a buffer of that index, and it is not queued.
abbrev pub is_ours : Option Buffer → Bool
is_ours none = false
is_ours (some b) = not b.queued

-- A buffer is handed to the driver at most once at a time: `queue` either answers an error and
-- leaves the queue as it was, or it has found a buffer of that index that was not queued, and one
-- more is in flight.
pub queue-in_flight :
    (ops : Ops) (q : Queue) (d : ops.D) (index bytesused timestamp_us : ℕ)
    → (((queue ops q d index bytesused timestamp_us).2 ≢ ok true)
        × ((queue ops q d index bytesused timestamp_us).0 ≡ q))
      ⊎ (((queue ops q d index bytesused timestamp_us).2 ≡ ok true)
          × (is_ours (get_elem? q.buffers index) ≡ true)
          × (in_flight (queue ops q d index bytesused timestamp_us).0 ≡ in_flight q + 1))
unfolding queue in_flight
queue-in_flight ops q d index bytesused timestamp_us = go (get_elem? q.buffers index) refl
  where
    go :
        (o : Option Buffer)
        → get_elem? q.buffers index ≡ o
        → (((queue ops q d index bytesused timestamp_us).2 ≢ ok true)
            × ((queue ops q d index bytesused timestamp_us).0 ≡ q))
          ⊎ (((queue ops q d index bytesused timestamp_us).2 ≡ ok true)
              × (is_ours (get_elem? q.buffers index) ≡ true)
              × (in_flight (queue ops q d index bytesused timestamp_us).0 ≡ in_flight q + 1))
    go none e = ground arith
    go (some b) e = ground (arith, count_queued-set q.buffers index b e)

count_queued-unqueued : (bs : List Buffer) → count_queued (unqueued bs) ≡ 0
count_queued-unqueued [] = refl
count_queued-unqueued (b ∷ bs) = count_queued-unqueued bs

-- A stream that is stopped has no buffer in flight, and a stop that fails changes nothing.
pub stream_off-in_flight :
    (ops : Ops) (q : Queue) (d : ops.D)
    → (((stream_off ops q d).2 ≢ ok true) × ((stream_off ops q d).0 ≡ q))
      ⊎ (((stream_off ops q d).2 ≡ ok true)
          × (in_flight (stream_off ops q d).0 ≡ 0)
          × ((stream_off ops q d).0.streaming ≡ false))
unfolding stream_off in_flight
stream_off-in_flight ops q d = ground (arith, count_queued-unqueued q.buffers)

count_queued-unset :
    (bs : List Buffer) (i : ℕ) (b : Buffer)
    → get_elem? bs i ≡ some b
    → b.queued ≡ true
    → count_queued (set bs i (record b { queued = false })) + 1 ≡ count_queued bs
count_queued-unset [] i b e h = cc
count_queued-unset (c ∷ bs) zero b e h = ground arith
count_queued-unset (c ∷ bs) (suc i) b e h = ground (arith, count_queued-unset bs i b e h)

-- A buffer that the driver gives back and that was queued is in flight no more.
pub dequeue-in_flight :
    (ops : Ops) (q : Queue) (d : ops.D) (out : Dequeued) (b : Buffer)
    → (ops.dqbuf d q.buf_type).1 ≡ ok (buffer out)
    → get_elem? q.buffers out.index ≡ some b
    → b.queued ≡ true
    → ((dequeue ops q d).2 ≡ ok (buffer out)) × (in_flight (dequeue ops q d).0 + 1 ≡ in_flight q)
unfolding dequeue in_flight
dequeue-in_flight ops q d out b e g h =
    rw (dequeue, in_flight, e, g) (refl, count_queued-unset q.buffers out.index b g h)
