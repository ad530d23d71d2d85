-- ===== src/Codec/Tests.antt =====
-- The scan for NAL units at a concrete input.
use castr.Base.{ℕ, ◌+◌, ◌≢◌, ◌⊎◌, Bool, true, false, none, ok, get_elem?, ◌≡◌, refl, [], ◌∷◌}
use castr.Codec.Queue.{Ops, Buffer, Queue, Dequeued, buffer, in_flight, queue}
use castr.Codec.Queue.InFlight.{is_ours, queue-in_flight}
use castr.Base.Bytes.{Bytes}
use castr.Codec.Annexb.{unit_at, nal_types_from, nal_types}
use castr.Codec.Annexb.Units.{every_unit, nal_types_lem}

-- A sequence parameter set and a key picture.
abbrev two_units : Bytes
two_units = 0 ∷ 0 ∷ 0 ∷ 1 ∷ 0x67 ∷ 66 ∷ 0 ∷ 0 ∷ 1 ∷ 0x65 ∷ 17 ∷ []

two_units_types : nal_types two_units ≡ 7 ∷ 5 ∷ []
unfolding nal_types nal_types_from unit_at
two_units_types = refl

nal_types_lem_example : nal_types two_units ≡ every_unit two_units
nal_types_lem_example = nal_types_lem two_units

abbrev returned : Dequeued
returned = record { index = 1; bytesused = 10; timestamp_us = 33333; flags = 0 }

-- A driver that grants everything and gives buffer 1 back.
abbrev willing : Ops
willing = record {
  D = ℕ;
  E = Bool;
  reqbufs = λ d t n. (d, ok n);
  querybuf = λ d t i. (d, ok (record { length_bytes = 4096; mem_offset = 0 }));
  mmap = λ d n o. (d, ok n);
  expbuf = λ d t i. (d, ok i);
  qbuf = λ d t i l b u. (d + 1, ok true);
  dqbuf = λ d t. (d, ok (buffer returned));
  streamon = λ d t. (d, ok true);
  streamoff = λ d t. (d, ok true);
}

abbrev busy : Buffer
busy = record { mapping = 4096; dmabuf = none; queued = true }

abbrev two_buffers : Queue
two_buffers = record {
  buf_type = 9;
  buffers = record { mapping = 4096; dmabuf = none; queued = false } ∷ busy ∷ [];
  streaming = true;
}

queue-in_flight_example :
    (((queue willing two_buffers 0 0 10 33333).2 ≢ ok true)
      × ((queue willing two_buffers 0 0 10 33333).0 ≡ two_buffers))
    ⊎ (((queue willing two_buffers 0 0 10 33333).2 ≡ ok true)
        × (is_ours (get_elem? two_buffers.buffers 0) ≡ true)
        × (in_flight (queue willing two_buffers 0 0 10 33333).0 ≡ in_flight two_buffers + 1))
queue-in_flight_example = queue-in_flight willing two_buffers 0 0 10 33333
