-- ===== src/Lib.antt =====
-- castr sends a screen over the network: a sender captures, encodes and packetizes, a receiver
-- reassembles, waits, decodes and shows, and a Wi-Fi Display sink and source do the same for
-- other makers' devices. This library models the parts of it that decide, and not those that call
-- the operating system.
--
-- The parts, and the files that model them:
--
-- crates/castr-proto (Proto): `header.rs` is Proto/Header, `packetize.rs` Proto/Packetize,
-- `reassemble.rs` Proto/Reassemble, `control.rs` Proto/Control and `session.rs` Proto/Session.
-- Proto/RoundTrip puts the packetizer and the reassembler together: `deliver` of Proto/Reassemble
-- is the receiver's loop, which hands every datagram to `push`.
--
-- crates/castr-net (Net): `retransmit.rs` is Net/Retransmit, the sender's answer to a request for
-- fragments; Net/Repair puts it together with the packetizer and the reassembler.
--
-- crates/castr-media (Media): `jitter.rs` is Media/Jitter, between the reassembler and the
-- decoder; `bitrate.rs` is Media/Bitrate, which the receiver's reports drive; `clock.rs` is
-- Media/Clock.
--
-- crates/castr-codec-v4l2 (Codec): `annexb.rs` is Codec/Annexb, `queue.rs` Codec/Queue.
--
-- crates/castr-miracast (Miracast): `lifecycle.rs`, `quality.rs`, `rtp.rs` and `dhcp.rs` are
-- Lifecycle, Quality, Rtp and Dhcp; `source/rtp_pack.rs` is RtpPack and `source/lpcm.rs` Lpcm.
-- `ts.rs`, the demultiplexer, is Ts, and `source/ts_mux.rs`, the multiplexer, is TsMux, whose
-- child RoundTrip puts the two together. `rtsp.rs` is Rtsp, the messages, and Rtsp/Negotiation,
-- the sink's half of the negotiation: Messages has what the source's messages do, Clock the
-- keep-alives and the requests of the sink itself. The source's half, `source/session.rs`, is
-- Source with Requests, Answers and Steps. `wfd.rs` is Wfd, `source/caps.rs` is Caps, with the
-- tables of modes in Tables and the choice in Choice. `session.rs`, which drives the negotiation,
-- the window, the demultiplexer and the ladder of the sink, is Sink; `pairing.rs`, the PIN, is
-- Pairing. Handshake runs the two halves of the negotiation against each other. From
-- crates/castr-wifidirect-win, `select.rs` and `failure.rs` are Select, which display a name
-- means.
--
-- Base holds what they share: the operations of `str` on texts (Strings), tests, lists measured
-- by native numbers, chunks, ascending maps, machine words and bytes. Each part's theorems are in
-- the modules under its own, its runs on concrete inputs in the module Tests of its crate.
--
-- How the code is read. A struct is a record, an enum a data type, a method that takes `&mut
-- self` a function from the state to the new state and the answer. Names are the source's; a
-- field `data` is `bytes`, `JitterBuffer::dropped`, the method, is `take_dropped`, and
-- `RetransmitBuffer::record` is `record_frame`. A function that can panic answers an Option,
-- whose `none` is the panic; a Result is one. Integers are native natural numbers, with the
-- wrapping of a release build written out (`add32`, `sub64` and so on of Base/Words), and
-- saturating subtraction is the subtraction of the natural numbers; an `i64` is its bit pattern,
-- compared by `ltb_i64` and `leb_i64`. Counters of what is in memory do not wrap. An Instant is a
-- number of microseconds. A BTreeMap, and a HashMap that is never walked, is an association list
-- in ascending order of its keys; a String is its bytes in UTF-8.
--
-- Loops are recursion on the list that they run over. Where the code runs over an index, the
-- recursion has fuel: `chunks` has the length of the list, and each turn takes a byte at least;
-- the loop over DHCP options has the number of bytes, and the loop over the messages in the
-- sink's buffer (`rtsp_loop`) one more than the number of bytes: a message has four bytes at
-- least.
--
-- Parameters: the floating-point operations of the bitrate controller (Media/Bitrate, `Floats`);
-- the encoder and decoder of the postcard package (Proto/Control); the V4L2 driver behind the
-- `Ops` trait (Codec/Queue).
--
-- Not modelled: capture, codecs, rendering, sockets, TLS, discovery and user interfaces, which
-- call the system or other packages; `drift_ratio` of the clock, which is floating-point
-- throughout; the V4L2 decoder; the texts of errors and of logs; the radio and the threads of
-- Wi-Fi Display.
pub mod Base
pub mod Proto
pub mod Media
pub mod Net
pub mod Codec
pub mod Miracast
