-- ===== src/Capture/Tests.antt =====
-- The reader on small captures, and the theorems about it at them.
use mega_feed_handler.Base.{
  ℕ, ◌≡◌, ◌↔◌, refl, true, none, some, List, [], ◌∷◌, arith, inl, replicate, All,
}
use mega_feed_handler.Capture.Defs.{PcapngReader, new_reader, open_file, fread}
use mega_feed_handler.Capture.Order.{order_u32}
use mega_feed_handler.Wire.Bytes.{get_u32}
use mega_feed_handler.Capture.Blocks.{
  fault, packet_block, typed_block, other_block, read_block, read_blocks,
  read_until_next_packet_block,
}
use mega_feed_handler.Capture.Frames.{find_packet, bytes_left, next_packet}
use mega_feed_handler.Capture.Encode.{Frame, IsFrame, store_capture}
use mega_feed_handler.Capture.Total.{IsEnd, next_packet_in}
use mega_feed_handler.Capture.Headers.{ShortPacketBlock}
use mega_feed_handler.Capture.Short.{read_block-none_iff}
use mega_feed_handler.Capture.Open.{format_error, opened_with, open_file_lem}
use mega_feed_handler.Capture.Yields.{Yields}
use mega_feed_handler.Capture.Times.{IsTimed, captured, capture_trip}

-- A datagram of four bytes, in a frame that is padded.
abbrev frame : Frame
frame = record {
  addresses = replicate 12 2;
  words = 5;
  ip_middle = replicate 8 0;
  ip_end = replicate 10 1;
  ports = replicate 4 7;
  checksum = 0 ∷ 0 ∷ [];
  payload = 1 ∷ 2 ∷ 3 ∷ 4 ∷ [];
  trailer = replicate 14 0;
}

frame-IsFrame : IsFrame frame
frame-IsFrame = record {
  addresses_length = refl;
  words_ge = omega arith;
  words_lt = omega arith;
  middle_length = refl;
  end_length = refl;
  ports_length = refl;
  checksum_length = refl;
  payload_lt = omega arith;
}

-- One packet, five microseconds after the start of time, in the byte order of another machine.
abbrev packets : List (ℕ × Frame)
packets = (5, frame) ∷ []

packets-IsTimed : All (IsTimed 6) packets
packets-IsTimed = (((frame-IsFrame, omega arith, omega arith), omega arith), tt)

abbrev reader : PcapngReader
reader = record new_reader { file = some (store_capture true 0 6 packets) }

capture_trip_example : Yields reader (captured 6 packets)
capture_trip_example = capture_trip true 0 6 packets (inl (omega arith)) packets-IsTimed reader refl

-- A section, and a packet block that ends behind its interface number.
abbrev short_file : List ℕ
short_file = 6 ∷ 0 ∷ 0 ∷ 0 ∷ 12 ∷ 0 ∷ 0 ∷ 0 ∷ 0 ∷ 0 ∷ 0 ∷ 0 ∷ []

read_block-none_iff_example :
    (read_block short_file new_reader ≡ none) ↔ ShortPacketBlock short_file new_reader
read_block-none_iff_example = read_block-none_iff short_file (ground arith) new_reader tt

abbrev short_reader : PcapngReader
short_reader = record new_reader { file = some short_file }

next_packet_in_example : IsEnd short_file short_reader 12 (next_packet short_reader)
next_packet_in_example =
    next_packet_in short_reader short_file refl
      (record { file_IsFile = ground arith; interfaces_good = tt })

short_faults : next_packet short_reader ≡ fault
unfolding next_packet find_packet bytes_left read_until_next_packet_block read_blocks read_block
    other_block typed_block packet_block fread get_u32 order_u32
short_faults = refl

-- A pcap file of the other format.
open_file_lem_example :
    open_file (some (0xd4 ∷ 0xc3 ∷ 0xb2 ∷ 0xa1 ∷ [])) new_reader
    ≡ some (
      format_error (0xd4 ∷ 0xc3 ∷ 0xb2 ∷ 0xa1 ∷ []),
      opened_with new_reader
          (0xd4 ∷ 0xc3 ∷ 0xb2 ∷ 0xa1 ∷ [])
          (format_error (0xd4 ∷ 0xc3 ∷ 0xb2 ∷ 0xa1 ∷ [])),
    )
open_file_lem_example = open_file_lem new_reader (0xd4 ∷ 0xc3 ∷ 0xb2 ∷ 0xa1 ∷ []) (ground arith)
