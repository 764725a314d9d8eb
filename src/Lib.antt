-- ===== src/Lib.antt =====
-- Mega-Feed-Handler: a feed handler reads an exchange's packets, keeps the order levels, and
-- republishes neutral messages on its own sequenced multicast; subscribers rebuild the stream over
-- UDP with repairs over TCP. This library models the program's core, with the theorems of
-- its correctness.
--
-- The parts, in the direction of the data:
--   Capture     src/pcapng_reader.h: byte orders (Capture/Order), the state of the reader and `open`
--               (Capture/Defs), `read_until_next_packet_block` (Capture/Blocks) and `next_packet`
--               (Capture/Frames). Interfaces, Reads, Headers, Short, Payload and Total are about its
--               reads and its end on any bytes, Open about `open`; Encode is a writer, and FrameTrip,
--               FileTrip, BlockTrip, Yields and Times read back what it has written.
--   Exchange    src/exchange.cpp and src/checkcap.cpp (Exchange/Programs): the loops over a capture.
--               Replay and Check are about each, EndToEnd about both on a written capture.
--   Feed        src/iextp.h (Feed/Iextp), src/deepplus.h (Feed/DeepPlus) and src/feedhandler.cpp
--               (Feed/Handler): a packet's messages, order events as level updates, and
--               `on_payload`, which calls the publisher; the receiving loop of `main` is Feed/Main, and
--               Feed/Course and Feed/Session are about it;
--               Feed/Total and Feed/Ends are about their reads. Feed/DeepPlus/Reads, Weights, Totals,
--               Events and Run are about the decoder, Feed/Duplicates about packets seen before.
--   Publisher   src/feedpublisher.h: `init`, `publish`, `finish` (Publisher/Defs) and the repair
--               server `serve_one_client` (Publisher/Serve). Publisher/Ring, Stream and Run are
--               about the ring, a bucket and a whole run; Finish is about the end, Session the server.
--   Wire        src/helpers.h: numbers, messages and datagrams as bytes (Wire/Bytes, Wire/Message)
--               and the hashes (Wire/Hash).
--   Subscriber  src/subscriber.h: the state of a bucket (Subscriber/Bucket), `nak`
--               (Subscriber/Nak), `drain_tcp` (Subscriber/Repair), `pump` (Subscriber/Pump) and `run`
--               (Subscriber/Run, with Subscriber/Rounds about it); Total and Ends are about their reads.
--               Subscriber/Invariant says what is to hold between calls; Arrive, Datagram, Frames,
--               Chase and Deliver are about the calls one by one. Stream has the runs: messages of
--               one stream, frames for a bucket that has tuned in, `nak` and `deliver` in any order; Later
--               is a run from some moment on.
--               Order, Complete, CatchUp and Drain are about runs; Reassemble, Heads, Chunks and
--               Exchange about the repair protocol.
--   Book        src/book.h: a symbol's book and the books with their fingerprint, which both the
--               publisher (`golden`) and the consumers run.
--   Visualizer  src/visualizer.cpp: the callback and the screen (Visualizer/View), and the book that
--               is watched (Visualizer/Watch).
--   Net         src/net.h: `read_exact` and `write_all` over the answers of `recv` and `send`
--               (Net/Stream), the sleeping loops (Net/Clock), groups and connections (Net/Groups),
--               and the sockets as the calls that are made for them (Net/Sockets).
--   Base        what the parts share: tests, lists, bit operations, signed numbers, and models of
--               `std::map` (OrdMap, Sorted) and `std::unordered_map` (HashMap).
--
-- How the code is read. An integer is a natural number below its width, with the wrap-around
-- written out; a signed price is an integer with its 64-bit pattern. The totals of the decoder's
-- levels are integers without a bound, where the code's are 64 bits wide and must not overflow. A
-- pointer into a buffer is the list of the bytes from it on, and a read past the end is the outer
-- `none`, which no caller expects. Calls of the system (sockets, the clock, threads) are arguments,
-- so the theorems hold for every answer; a block under `ring_mutex` is one step. The draws of the
-- loss generator are any stream.
--
-- Fuel. `deliver_loop` runs on the number of entries in `parked` and `gone` plus one, since every
-- round takes one away; `parse_frames` on the number of bytes plus one, since a frame has twelve;
-- `serve` on the number of bytes plus one, since a request has four; `read_blocks` and `find_packet`
-- on the bytes of the file plus one, since a block has eight; `read_options` on the length of the
-- body plus one, since an option has four; the loops of Exchange on the bytes of the file plus one.
-- The other loops are recursions on their data.
--
-- Not modelled: what is printed; in src/net.h the signal handlers; in
-- src/exchange.cpp the pacing, which is floating point and sleeps; in src/feedpublisher.h the accept
-- loop and the addresses; the constants of src/env.h that are addresses and paths.
-- Sequence numbers of a run stay below 2^64 - 1, which is a hypothesis where it matters.
pub mod Base
pub mod Wire
pub mod Book
pub mod Publisher
pub mod Subscriber
pub mod Feed
pub mod Capture
pub mod Exchange
pub mod Net
pub mod Visualizer
