-- ===== src/Codec/Queue.antt =====
-- crates/castr-codec-v4l2/src/queue.rs: the bookkeeping of one V4L2 buffer queue. The driver is a
-- parameter, with a state of its own that every call may change; a mapping is its length, and
-- `Ok(())` is `ok true`.
pub mod InFlight
use castr.Base.{
  ℕ, zero, suc, ◌+◌, ◌%◌, ◌^◌, Bool, true, false, not, Option, none, some, List, [], ◌∷◌, ◌++◌,
  Result, ok, err, if◌then◌else◌, get_elem?, set, position,
}

pub record PlaneInfo : Type 0 where
  pub length_bytes : ℕ
  pub mem_offset : ℕ

pub record Dequeued : Type 0 where
  pub index : ℕ
  pub bytesused : ℕ
  pub timestamp_us : ℕ
  pub flags : ℕ

pub data Dequeue : Type 0 where
  idle : Dequeue
  buffer : Dequeued → Dequeue
  end_of_sequence : Dequeue

-- The calls of the `Ops` trait that a queue makes, each with the queue's type in front.
pub record Ops : Type 1 where
  pub D : Type 0
  pub E : Type 0
  pub reqbufs : D → ℕ → ℕ → D × Result ℕ E
  pub querybuf : D → ℕ → ℕ → D × Result PlaneInfo E
  pub mmap : D → ℕ → ℕ → D × Result ℕ E
  pub expbuf : D → ℕ → ℕ → D × Result ℕ E
  pub qbuf : D → ℕ → ℕ → ℕ → ℕ → ℕ → D × Result Bool E
  pub dqbuf : D → ℕ → D × Result Dequeue E
  pub streamon : D → ℕ → D × Result Bool E
  pub streamoff : D → ℕ → D × Result Bool E

pub record Buffer : Type 0 where
  pub mapping : ℕ
  pub dmabuf : Option ℕ
  pub queued : Bool

pub record Queue : Type 0 where
  pub buf_type : ℕ
  pub buffers : List Buffer
  pub streaming : Bool

pub data QueueError (E : Type 0) : Type 0 where
  driver : E → QueueError E
  out_of_range : QueueError E
  already_queued : ℕ → QueueError E
  unknown_buffer : ℕ → QueueError E

unfoldable pub new : ℕ → Queue
new buf_type = record { buf_type = buf_type; buffers = []; streaming = false }

unfoldable pub free_slot : Queue → Option ℕ
free_slot q = position (λ (b : Buffer). not b.queued) q.buffers

abbrev pub count_queued : List Buffer → ℕ
count_queued [] = 0
count_queued (b ∷ bs) = if b.queued then suc (count_queued bs) else count_queued bs

unfoldable pub in_flight : Queue → ℕ
in_flight q = count_queued q.buffers

abbrev pub unqueued : List Buffer → List Buffer
unqueued [] = []
unqueued (b ∷ bs) = record b { queued = false } ∷ unqueued bs

module _ (ops : Ops) where
  open ops use {D, E, reqbufs, querybuf, mmap, expbuf, qbuf, dqbuf, streamon, streamoff}

  -- The export of one buffer's handle, if it is wanted.
  unfoldable pub export_handle : ℕ → Bool → ℕ → D → D × Result (Option ℕ) E
  export_handle buf_type false index d = (d, ok none)
  export_handle buf_type true index d =
      let (d', r) = expbuf d buf_type index in
      elim r [ err e ↦ (d', err e) | ok fd ↦ (d', ok (some fd)) ]

  -- The loop's body: one buffer.
  unfoldable pub allocate_one : ℕ → Bool → ℕ → D → D × Result Buffer E
  allocate_one buf_type export index d =
      let (d1, r) = querybuf d buf_type index in
      elim r [
        | err e ↦ (d1, err e)
        | ok info ↦
            let (d2, r) = mmap d1 info.length_bytes info.mem_offset in
            elim r [
              | err e ↦ (d2, err e)
              | ok mapping ↦
                  let (d3, r) = export_handle buf_type export index d2 in
                  elim r [
                    | err e ↦ (d3, err e)
                    | ok dmabuf ↦
                        (d3, ok (record { mapping = mapping; dmabuf = dmabuf; queued = false }))
                  ]
            ]
      ]

  -- The loop, with `left` buffers to go from `index` on.
  unfoldable pub allocate_loop : ℕ → ℕ → Bool → Queue → D → Queue × D × Result Bool (QueueError E)
  allocate_loop zero index export q d = (q, d, ok true)
  allocate_loop (suc left) index export q d =
      let (d', r) = allocate_one q.buf_type export index d in
      elim r [
        | err e ↦ (q, d', err (driver e))
        | ok b ↦
            allocate_loop left (index + 1) export (record q { buffers = q.buffers ++ (b ∷ []) }) d'
      ]

  unfoldable pub allocate : Queue → D → ℕ → Bool → Queue × D × Result Bool (QueueError E)
  allocate q d count export =
      let (d', r) = reqbufs d q.buf_type count in
      elim r [
        | err e ↦ (q, d', err (driver e))
        | ok granted ↦ allocate_loop granted 0 export (record q { buffers = [] }) d'
      ]

  unfoldable pub stream_on : Queue → D → Queue × D × Result Bool (QueueError E)
  stream_on q d =
      let (d', r) = streamon d q.buf_type in
      elim r [
        | err e ↦ (q, d', err (driver e))
        | ok u ↦ (record q { streaming = true }, d', ok true)
      ]

  unfoldable pub stream_off : Queue → D → Queue × D × Result Bool (QueueError E)
  stream_off q d =
      let (d', r) = streamoff d q.buf_type in
      elim r [
        | err e ↦ (q, d', err (driver e))
        | ok u ↦ (record q { streaming = false; buffers = unqueued q.buffers }, d', ok true)
      ]

  unfoldable pub queue : Queue → D → ℕ → ℕ → ℕ → Queue × D × Result Bool (QueueError E)
  queue q d index bytesused timestamp_us = elim (get_elem? q.buffers index) [
    | none ↦ (q, d, err out_of_range)
    | some b ↦ elim b.queued [
      | true ↦ (q, d, err (already_queued index))
      | false ↦
          let (d', r) =
            qbuf d q.buf_type (index % 2 ^ 32) (b.mapping % 2 ^ 32) bytesused timestamp_us in
          elim r [
            | err e ↦ (q, d', err (driver e))
            | ok u ↦ (
              record q { buffers = set q.buffers index (record b { queued = true }) },
              d',
              ok true,
            )
          ]
    ]
  ]

  unfoldable pub dequeue : Queue → D → Queue × D × Result Dequeue (QueueError E)
  dequeue q d =
      let (d', r) = dqbuf d q.buf_type in
      elim r [
        | err e ↦ (q, d', err (driver e))
        | ok idle ↦ (q, d', ok idle)
        | ok end_of_sequence ↦ (q, d', ok end_of_sequence)
        | ok (buffer out) ↦ elim (get_elem? q.buffers out.index) [
          | none ↦ (q, d', err (unknown_buffer out.index))
          | some b ↦ (
            record q { buffers = set q.buffers out.index (record b { queued = false }) },
            d',
            ok (buffer out),
          )
        ]
      ]

  -- The end of `release`, behind the stop of the stream.
  unfoldable pub free_buffers : Queue → D → Queue × D × Result Bool (QueueError E)
  free_buffers q d =
      let (d', r) = reqbufs d q.buf_type 0 in
      elim r [
        | err e ↦ (record q { buffers = [] }, d', err (driver e))
        | ok granted ↦ (record q { buffers = [] }, d', ok true)
      ]

  unfoldable pub release : Queue → D → Queue × D × Result Bool (QueueError E)
  release q d = elim q.streaming [
    | false ↦ free_buffers q d
    | true ↦
        let (q', d', r) = stream_off q d in
        elim r [ err e ↦ (q', d', err e) | ok u ↦ free_buffers q' d' ]
  ]
