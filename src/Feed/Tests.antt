-- ===== src/Feed/Tests.antt =====
-- src/deepplus.h and src/feedhandler.cpp: concrete messages and packets.
use mega_feed_handler.Base.{
  ℕ, ◌≡◌, refl, List, [], ◌∷◌, ◌++◌, some, Succeeds, length, true, false, replicate, arith,
}
use mega_feed_handler.Base.HashMap.{nat_key, find, insert}
use mega_feed_handler.Base.Int.{pos}
use mega_feed_handler.Wire.Bytes.{get_u16, get_u32, get_u64}
use mega_feed_handler.Publisher.Defs.{init_with}
use mega_feed_handler.Feed.Iextp.{IextpHeader, Message, iextp_for_each_message, each_message}
use mega_feed_handler.Feed.DeepPlus.Defs.{
  Order, DeepPlusDecoder, empty_decoder, add_level, add_order, execute_order, decode,
}
use mega_feed_handler.Feed.DeepPlus.Weights.{weight}
use mega_feed_handler.Feed.DeepPlus.Totals.{level_of, size_on}
use mega_feed_handler.Feed.DeepPlus.Run.{Follows, nothing, added, executed, Follows-totals}
use mega_feed_handler.Feed.DeepPlus.Reads.{IsFine, decode_in}
use mega_feed_handler.Feed.Handler.{FeedHandler, on_header}
use mega_feed_handler.Feed.Duplicates.{on_header-duplicate}
use mega_feed_handler.Feed.Iextp.{iextp_decode, iextp_fields}
use mega_feed_handler.Feed.Main.{Wake, Session, arrived, interrupted, receive_loop}
use mega_feed_handler.Feed.Session.{IsSession}
use mega_feed_handler.Feed.Total.{IsReady}
use mega_feed_handler.Feed.Ends.{IsReadyEnded, receive_loop-IsSession}

-- An order to buy 3 at 258.
abbrev add_message : List ℕ
add_message =
    0x61 ∷ 0x38 ∷ 1 ∷ 0 ∷ 0 ∷ 0 ∷ 0 ∷ 0 ∷ 0 ∷ 0 ∷ 65 ∷ 66 ∷ 32 ∷ 32 ∷ 32 ∷ 32 ∷ 32 ∷ 32 ∷ 7 ∷ 0 ∷ 0
    ∷ 0 ∷ 0 ∷ 0 ∷ 0 ∷ 0 ∷ 3 ∷ 0 ∷ 0 ∷ 0 ∷ 2 ∷ 1 ∷ 0 ∷ 0 ∷ 0 ∷ 0 ∷ 0 ∷ 0 ∷ []

decode_in_example : IsFine (decode add_message 38 empty_decoder)
decode_in_example = decode_in add_message 38 empty_decoder (ground arith) (omega arith)

abbrev seen_header : IextpHeader
seen_header = record {
  version = 1;
  protocol = 0x8005;
  payload_length = 3;
  message_count = 2;
  channel = 0;
  session = 0;
  stream_offset = 0;
  first_sequence_number = 5;
  send_ns = 0;
}

abbrev at_seven : FeedHandler
at_seven = record {
  decoder = empty_decoder;
  publisher = init_with 1 1 0 (λ i. i);
  expected = 7;
  capture_gaps = 0;
  published = 0;
  warned_protocol = false;
}

-- A packet with a message of one byte, and less than was announced.
abbrev packet : List ℕ
packet = replicate 40 0 ++ (1 ∷ 0 ∷ 9 ∷ [])

abbrev one_message : List Message
one_message = record { bytes = 9 ∷ []; size = 1 } ∷ []

packet_messages : iextp_for_each_message packet 43 seen_header ≡ some one_message
unfolding iextp_for_each_message each_message get_u16
packet_messages = refl

on_header-duplicate_example : on_header packet 43 seen_header at_seven ≡ some (at_seven, [])
on_header-duplicate_example =
    on_header-duplicate packet 43 seen_header at_seven one_message refl packet_messages
      (omega arith) (omega arith)

-- Two orders at a price, one of them filled in part.
abbrev bid : ℕ → Order
bid size = record {
  symbol = 65 ∷ 66 ∷ 0 ∷ 0 ∷ 0 ∷ 0 ∷ 0 ∷ 0 ∷ 0 ∷ [];
  price = pos 258;
  size = size;
  side = false;
}

abbrev one_order : DeepPlusDecoder
one_order = (add_order 7 (bid 3) 1 empty_decoder).0

abbrev two_orders : DeepPlusDecoder
two_orders = (add_order 8 (bid 4) 2 one_order).0

abbrev filled : DeepPlusDecoder
filled = (execute_order 8 (bid 4) 1 (pos 258) 3 two_orders).0

filled-Follows : Follows filled
unfolding add_order add_level find insert
filled-Follows =
    executed 8 (bid 4) 1 (pos 258) 3 refl (omega arith)
      (added 8 (bid 4) 2 refl (added 7 (bid 3) 1 refl nothing))

Follows-totals_example :
    level_of filled (65 ∷ 66 ∷ []) false (pos 258)
    ≡ pos (weight (size_on (65 ∷ 66 ∷ []) false (pos 258)) filled.orders)
Follows-totals_example = Follows-totals filled (65 ∷ 66 ∷ []) false (pos 258) filled-Follows

-- A packet of the venue with an order to buy.
abbrev order_packet : List ℕ
order_packet =
    1 ∷ 0 ∷ 0x05 ∷ 0x80 ∷ replicate 8 0
    ++ (40 ∷ 0 ∷ 1 ∷ 0 ∷ replicate 8 0)
    ++ (7 ∷ replicate 15 0)
    ++ (38 ∷ 0 ∷ add_message)

-- That packet, a signal, one that is none of the venue's, and then silence for more than two
-- seconds.
abbrev quiet_day : List Wake
quiet_day =
    record {
      stopped = false;
      ready = true;
      arrivals = arrived order_packet 4 ∷ interrupted ∷ arrived (1 ∷ 2 ∷ []) 5 ∷ [];
      now = 6;
    }
    ∷ record { stopped = false; ready = false; arrivals = []; now = 3_000_000_000 }
    ∷ []

abbrev started : Session
started = record { handler = at_seven; packets = 0; last_receive = 0 }

abbrev order_header : IextpHeader
order_header = record seen_header {
  payload_length = 40;
  message_count = 1;
  first_sequence_number = 7;
}

order_packet_header : iextp_decode order_packet (length order_packet) ≡ some (some order_header)
unfolding iextp_decode iextp_fields get_u16 get_u32 get_u64
order_packet_header = refl

order_packet_messages :
    iextp_for_each_message order_packet (length order_packet) order_header
    ≡ some (record { bytes = add_message; size = 38 } ∷ [])
unfolding iextp_for_each_message each_message get_u16
order_packet_messages = refl

at_seven-IsReady : IsReady at_seven.publisher
unfolding init_with
at_seven-IsReady = record { some_buckets = omega arith; buckets_are = refl }

receive_loop-IsSession_example :
    Succeeds
      (λ e. IsSession 1 quiet_day started e × IsReadyEnded e)
      (receive_loop 1 quiet_day started)
receive_loop-IsSession_example =
    receive_loop-IsSession 1 quiet_day started (ground arith) at_seven-IsReady
