-- ===== src/Exchange/EndToEnd.antt =====
-- src/exchange.cpp and src/checkcap.cpp on a capture as it is written: from the bytes of the file
-- to the datagrams that are sent.
use mega_feed_handler.Base.{
  ℕ, suc, ◌+◌, ◌^◌, ◌<◌, ◌≤◌, ◌≡◌, refl, ap, Bool, false, none, some, List, [], ◌∷◌, ◌++◌, arith,
  ltb, ◌==◌, length, length-append, All, drop, if◌then◌else◌,
}
use mega_feed_handler.Capture.Order.{store_u32, length-store_u32}
use mega_feed_handler.Wire.Bytes.{get_u32}
use mega_feed_handler.Capture.Defs.{PcapngReader, open_file, new_reader}
use mega_feed_handler.Capture.Blocks.{found}
use mega_feed_handler.Capture.Frames.{bytes_left}
use mega_feed_handler.Capture.Encode.{
  Frame, store_section, store_interface, store_packet, store_packets, store_capture, store_frame,
  packet_body,
}
use mega_feed_handler.Capture.FileTrip.{fread-append}
use mega_feed_handler.Capture.Total.{bytes_left_lem}
use mega_feed_handler.Capture.Times.{IsResolution, IsTimed, captured, capture_trip}
use mega_feed_handler.Exchange.Programs.{
  World, Replay, replay_capture, Counts, no_counts, exit_code, checkcap, pcap_packet_count,
}
use mega_feed_handler.Exchange.Replay.{total_bytes, IsReplayOf, replay_capture_lem}
use mega_feed_handler.Exchange.Check.{IsCounted, count_capture_lem}

length-captured :
    (resolution : ℕ) (packets : List (ℕ × Frame))
    → length (captured resolution packets) ≡ length packets
length-captured resolution [] = refl
length-captured resolution (p ∷ packets) = ap suc (length-captured resolution packets)

store_packets-le :
    (swapped : Bool) (packets : List (ℕ × Frame))
    → length packets ≤ length (store_packets swapped packets)
store_packets-le swapped [] = omega arith
store_packets-le swapped ((ticks, f) ∷ packets) =
    let body = packet_body swapped ticks (store_frame f) in
    omega (
      arith,
      store_packets-le swapped packets,
      length-append {0} (store_packet swapped ticks (store_frame f))
          (store_packets swapped packets),
      length-append {0} (store_u32 swapped 6) (store_u32 swapped (length body + 8) ++ body),
      length-store_u32 swapped 6,
    )

module _ (swapped : Bool) (snap_length resolution : ℕ) (packets : List (ℕ × Frame)) where
  abbrev pub capture : List ℕ
  capture = store_capture swapped snap_length resolution packets

  abbrev pub opened : PcapngReader
  opened = record new_reader { file = some capture }

  capture-le : length packets ≤ bytes_left opened
  capture-le =
      let body = store_interface swapped 1 snap_length resolution in
      let rest = body ++ store_packets swapped packets in
      omega (
        arith,
        bytes_left_lem opened capture refl,
        store_packets-le swapped packets,
        length-append {0} (store_section swapped) rest,
        length-append {0} body (store_packets swapped packets),
      )

  open_file-capture : open_file (some capture) new_reader ≡ some (none, opened)
  unfolding open_file get_u32
  open_file-capture =
      rw (fread-append 4 (0x0a ∷ 0x0d ∷ 0x0d ∷ 0x0a ∷ []) (drop 4 capture) refl, open_file) refl

  module _ (known : IsResolution resolution) (timed : All (IsTimed resolution) packets)
      (count_lt : length packets < 2 ^ 64)
      (bytes_lt : total_bytes (captured resolution packets) < 2 ^ 64) where
    -- `exchange` opens the capture and sends the payloads of its frames in order, each as it was
    -- written into its frame, `count` of them at most.
    pub replay-capture :
        (count : ℕ) (world : World)
        → ((n : ℕ) → world.stopped n ≡ false)
        → (open_file (some capture) new_reader ≡ some (none, opened))
          × ((result : Replay) × (reader' : PcapngReader) × (replay_capture count world opened
                ≡ found result reader')
              × IsReplayOf count world (captured resolution packets) result)
    replay-capture count world going =
        let same = length-captured resolution packets in
        (
          open_file-capture,
          replay_capture_lem count world going opened (captured resolution packets)
              (capture_trip swapped snap_length resolution packets known timed opened refl)
              (omega (arith, same, capture-le)) (omega (arith, same)) bytes_lt,
        )

    -- `checkcap` counts those payloads, and its exit code tells whether there are enough of them.
    pub checkcap-capture :
        (counts : Counts) × (checkcap (some capture)
          ≡ some (
            counts,
            if length packets == 0
                then 1
                else (if ltb (length packets) pcap_packet_count then 2 else 0),
          ))
        × IsCounted (captured resolution packets) no_counts counts
    unfolding checkcap exit_code
    checkcap-capture =
        let same = length-captured resolution packets in
        let (counts, reader', read, counted) =
          count_capture_lem opened (captured resolution packets)
            (capture_trip swapped snap_length resolution packets known timed opened refl)
            (omega (arith, same, capture-le)) (omega (arith, same)) bytes_lt in
        let total : counts.packets ≡ length packets = omega (arith, counted.packets_read, same) in
        (counts, rw (open_file-capture, read, checkcap) (rw total refl), counted)
