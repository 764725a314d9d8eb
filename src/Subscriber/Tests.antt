-- ===== src/Subscriber/Tests.antt =====
-- src/subscriber.h: one run of a bucket, with a datagram lost and repaired.
use mega_feed_handler.Base.{
  ℕ, ◌+◌, ◌<◌, ◌≤◌, ◌≡◌, ◌⊎◌, ◌>>=◌, refl, List, [], ◌∷◌, ◌++◌, true, false, Option, none, some,
  ◌==◌, if◌then◌else◌, length, arith, All,
}
use mega_feed_handler.Base.Int.{pos}
use mega_feed_handler.Base.OrdMap.{OrdMap, ascending, find, contains, insert, erase}
use mega_feed_handler.Wire.Message.{OrderMessage, IsWire, message_encode}
use mega_feed_handler.Publisher.Defs.{Slot}
use mega_feed_handler.Publisher.Serve.{read_ring, respond}
use mega_feed_handler.Subscriber.Bucket.{
  Bucket, Hole, make_bucket, sync, note_hole, note_holes, park, accept, on_frame, take_parked,
  count_delivered, deliver_loop, deliver,
}
use mega_feed_handler.Subscriber.Nak.{write_off, put_sequences}
use mega_feed_handler.Subscriber.Invariant.{InOrder}
use mega_feed_handler.Subscriber.Complete.{IsSettled, deliver-IsSettled}
use mega_feed_handler.Subscriber.Stream.{Reach, made, datagram, repaired, handed_on}
use mega_feed_handler.Subscriber.Order.{
  position, Reach-InOrder, Reach-counted, history, Reach-complete,
}
use mega_feed_handler.Subscriber.Later.{at_once, then_datagram}
use mega_feed_handler.Subscriber.CatchUp.{deliver-waits, accept-covers, IsExpired, write_off-passes}
use mega_feed_handler.Subscriber.Repair.{frame_head, partial, parse}
use mega_feed_handler.Subscriber.Reassemble.{answer_bytes, apply_answers, parse_lem}
use mega_feed_handler.Wire.Message.{dgram_encode}
use mega_feed_handler.Subscriber.Pump.{Received}
use mega_feed_handler.Subscriber.Chunks.{read_on, parse-append}
use mega_feed_handler.Subscriber.Exchange.{answers_for, IsServed, repair-exchange}

-- A stream that ends with number 3.
abbrev feed : ℕ → OrderMessage
feed k = record {
  type = if k == 3 then b'E' else b'B';
  symbol = 65 ∷ 65 ∷ 65 ∷ 65 ∷ 0 ∷ 0 ∷ 0 ∷ 0 ∷ 0 ∷ [];
  price = pos 100;
  size = 5;
  timestamp = 1;
}

-- Number 1 is lost, 2 arrives, and 1 is repaired.
abbrev opened : Bucket
opened = make_bucket 1 0

abbrev heard : Bucket
heard = accept 0 10 2 (feed 2) opened

abbrev mended : Bucket
mended = on_frame 1 (some (feed 1)) heard

abbrev moved_on : Bucket
moved_on = (deliver mended).0

abbrev handed : List OrderMessage
handed = [] ++ (deliver mended).1

opened-Reach : Reach feed 1 opened []
opened-Reach = made 0 (omega arith)

heard_synced : heard.synced ≡ true
unfolding accept sync park note_holes note_hole make_bucket contains find insert erase
heard_synced = refl

mended-Reach : Reach feed 1 mended []
mended-Reach = repaired 1 (omega arith) heard_synced (datagram 0 10 2 (omega arith) opened-Reach)

moved_on-Reach : Reach feed 1 moved_on handed
moved_on-Reach = handed_on mended-Reach

moved_on_synced : moved_on.synced ≡ true
unfolding accept sync park note_holes note_hole make_bucket contains find insert erase on_frame
    deliver deliver_loop take_parked count_delivered
moved_on_synced = refl

handed_all : handed ≡ feed 1 ∷ feed 2 ∷ []
unfolding accept sync park note_holes note_hole make_bucket contains find insert erase on_frame
    deliver deliver_loop take_parked count_delivered
handed_all = refl

Reach-InOrder_example :
    (start : ℕ) × ((◌≡◌ {A = ℕ} 1 0) ⊎ (start ≡ 1))
    × InOrder feed start (position moved_on) moved_on.stats.unrecoverable handed
    × ((moved_on.done ≡ false) ⊎ ((feed (position moved_on)).type ≡ b'E'))
Reach-InOrder_example = Reach-InOrder feed 1 moved_on handed moved_on-Reach moved_on_synced

Reach-counted_example :
    (start : ℕ) × ((◌≡◌ {A = ℕ} 1 0) ⊎ (start ≡ 1))
    × (start + moved_on.stats.delivered + moved_on.stats.unrecoverable ≡ position moved_on)
    × (moved_on.stats.delivered ≡ length handed)
Reach-counted_example = Reach-counted feed 1 moved_on handed moved_on-Reach moved_on_synced

none_lost : moved_on.stats.unrecoverable ≡ 0
unfolding accept sync park note_holes note_hole make_bucket contains find insert erase on_frame
    deliver deliver_loop take_parked count_delivered
none_lost = refl

Reach-complete_example :
    (start : ℕ) × ((◌≡◌ {A = ℕ} 1 0) ⊎ (start ≡ 1)) × (handed ≡ history feed start (length handed))
Reach-complete_example = Reach-complete feed 1 moved_on handed moved_on-Reach none_lost

deliver-IsSettled_example : IsSettled moved_on
deliver-IsSettled_example = deliver-IsSettled mended

opened_synced : opened.synced ≡ true
unfolding make_bucket
opened_synced = refl

opened_ahead : opened.next_sequence ≤ 2
unfolding make_bucket
opened_ahead = omega arith

opened_free : contains 2 opened.parked ≡ false
unfolding make_bucket contains find
opened_free = refl

one_left : (1 < 2) × (1 ≤ 2)
one_left = (omega arith, omega arith)

heard_next : heard.next_sequence ≤ 1
unfolding accept sync park note_holes note_hole make_bucket contains find insert erase
heard_next = omega arith

accept-covers_example :
    (contains 1 heard.parked ≡ true)
    ⊎ (contains 1 heard.holes ≡ true)
    ⊎ (contains 1 heard.gone ≡ true)
accept-covers_example =
    accept-covers feed 1 opened [] 0 10 2 opened-Reach opened_synced (omega arith) opened_ahead
      opened_free 1 heard_next (omega arith)

-- Number 1 does not come, and neither does the end.
abbrev held_up : Bucket
held_up = (deliver (accept 0 20 2 (feed 2) heard)).0

deliver-waits_example :
    (held_up.done ≡ true)
    ⊎ (contains held_up.next_sequence held_up.holes ≡ true)
    ⊎ ((held_up.holes ≡ []) × (2 < held_up.next_sequence))
deliver-waits_example =
    deliver-waits feed 1 opened (accept 0 20 2 (feed 2) heard) [] [] 0 10 2 opened-Reach
      opened_synced (omega arith) opened_ahead opened_free
      (then_datagram 0 20 2 (omega arith) at_once)

heard-IsExpired : All (IsExpired 5000 100) heard.holes
unfolding accept sync park note_holes note_hole make_bucket contains find insert erase
heard-IsExpired = (omega arith, tt)

write_off-passes_example :
    ((deliver (write_off 5000 100 heard)).0.done ≡ true)
    ⊎ (2 < (deliver (write_off 5000 100 heard)).0.next_sequence)
write_off-passes_example =
    write_off-passes feed 1 opened [] 0 10 2 5000 100 opened-Reach opened_synced (omega arith)
      opened_ahead opened_free heard-IsExpired

abbrev two_holes : OrdMap ℕ Hole
two_holes = (4, record { noticed = 10; asked = 0 }) ∷ (6, record { noticed = 4990; asked = 0 }) ∷ []

feed_2-IsWire : IsWire (feed 2)
feed_2-IsWire = record {
  type_byte = omega arith;
  symbol_terminated = refl;
  symbol_length = refl;
  price_int64 = (omega arith, omega arith);
  size_u32 = omega arith;
  timestamp_u64 = omega arith;
}

feed-IsWire : IsWire (feed 1)
feed-IsWire = record {
  type_byte = omega arith;
  symbol_terminated = refl;
  symbol_length = refl;
  price_int64 = (omega arith, omega arith);
  size_u32 = omega arith;
  timestamp_u64 = omega arith;
}

parse_lem_example :
    parse (answer_bytes ((0, 1, some (feed 1)) ∷ (0, 5, none) ∷ []) ++ 0 ∷ 0 ∷ []) (heard ∷ [])
    ≡ some (record {
      buckets = apply_answers ((0, 1, some (feed 1)) ∷ (0, 5, none) ∷ []) (heard ∷ []);
      waiting = some (0 ∷ 0 ∷ []);
    })
parse_lem_example =
    parse_lem ((0, 1, some (feed 1)) ∷ (0, 5, none) ∷ []) (0 ∷ 0 ∷ []) (heard ∷ [])
      ((omega arith, omega arith, feed-IsWire), ((omega arith, omega arith), tt)) half
  where
    half : frame_head (0 ∷ 0 ∷ []) ≡ some partial
    half = unfold frame_head in refl

-- A ring of two slots with number 1 in it.
abbrev small_ring : List Slot
small_ring =
    record { sequence = 0; used = false; msg = [] }
    ∷ record { sequence = 1; used = true; msg = message_encode (feed 1) }
    ∷ []

abbrev in_ring : ℕ → Option OrderMessage
in_ring k = if k == 1 then some (feed 1) else none

ring_serves : All (IsServed 0 small_ring 2 in_ring) (1 ∷ 2 ∷ [])
unfolding read_ring
ring_serves = (
  ((omega arith, omega arith, feed-IsWire), omega arith, refl),
  (((omega arith, omega arith), omega arith, refl), tt),
)

repair-exchange_example :
    (respond 0 small_ring 2 2 (put_sequences (1 ∷ 2 ∷ [])) >>= λ bytes. parse bytes (heard ∷ []))
    ≡ some (record {
      buckets = apply_answers (answers_for 0 in_ring (1 ∷ 2 ∷ [])) (heard ∷ []);
      waiting = some [];
    })
repair-exchange_example =
    repair-exchange 0 small_ring 2 in_ring (1 ∷ 2 ∷ []) (heard ∷ []) ring_serves

-- A gone frame that comes in two parts.
parse-append_example :
    parse ((0 ∷ 0 ∷ 1 ∷ 0 ∷ 0 ∷ []) ++ (0 ∷ 0 ∷ 0 ∷ 0 ∷ 0 ∷ 0 ∷ 0 ∷ [])) (heard ∷ [])
    ≡ read_on (0 ∷ 0 ∷ 0 ∷ 0 ∷ 0 ∷ 0 ∷ 0 ∷ []) (parse (0 ∷ 0 ∷ 1 ∷ 0 ∷ 0 ∷ []) (heard ∷ []))
parse-append_example =
    parse-append (0 ∷ 0 ∷ 1 ∷ 0 ∷ 0 ∷ []) (0 ∷ 0 ∷ 0 ∷ 0 ∷ 0 ∷ 0 ∷ 0 ∷ []) (heard ∷ [])
      (ground arith) (ground arith)

-- The datagram of number 2, behind a byte that is none and a datagram for another bucket.
abbrev queued : List Received
queued =
    record { now = 9; bytes = 7 ∷ [] }
    ∷ record { now = 9; bytes = dgram_encode 1 5 (message_encode (feed 2)) }
    ∷ record { now = 10; bytes = dgram_encode 0 2 (message_encode (feed 2)) }
    ∷ []
