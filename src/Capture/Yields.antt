-- ===== src/Capture/Yields.antt =====
-- src/pcapng_reader.h: all that `next_packet` hands back when it is called until it returns false.
use mega_feed_handler.Base.{
  ℕ, zero, suc, ◌-◌, ◌<◌, ◌≡◌, refl, ◌∙◌, Bool, some, List, [], ◌∷◌, ◌++◌, arith, length, All,
  le→ltb,
}
use mega_feed_handler.Capture.Defs.{InterfaceInfo, PcapngReader, Packet, fread}
use mega_feed_handler.Capture.Blocks.{
  ended, found, skip, deliver, read_block, read_blocks, read_until_next_packet_block, interface_of,
  ticks_to_ns,
}
use mega_feed_handler.Capture.Frames.{packet_payload, find_packet, next_packet}
use mega_feed_handler.Capture.Encode.{
  Frame, IsFrame, IsStored, store_frame, store_packets, store_capture, store_interface,
}
use mega_feed_handler.Capture.FrameTrip.{ethernet_payload-store_frame}
use mega_feed_handler.Capture.FileTrip.{read_block-store_section}
use mega_feed_handler.Capture.BlockTrip.{
  packet_of, stored_interface, read_block-store_interface, read_block-store_packet,
  stored_interface-link_type,
}

-- The payloads with their times, in order.
pub data Yields : PcapngReader → List (List ℕ × ℕ) → Type 0 where
  finished : {r r' : PcapngReader} → next_packet r ≡ ended r' → Yields r []
  more :
      {r r' : PcapngReader} {payload : List ℕ} {time : ℕ} {rest : List (List ℕ × ℕ)}
      → next_packet r ≡ found (payload, time) r'
      → Yields r' rest
      → Yields r ((payload, time) ∷ rest)

next_ended :
    (r : PcapngReader) {r' : PcapngReader}
    → read_until_next_packet_block r ≡ ended r'
    → next_packet r ≡ ended r'
unfolding next_packet find_packet
next_ended r e = rw (e, next_packet, find_packet) refl

next_found :
    (r : PcapngReader) {r' r'' : PcapngReader} {p : Packet} {payload : List ℕ}
    → read_until_next_packet_block r ≡ found p r'
    → packet_payload p r' ≡ some (some payload, r'')
    → next_packet r ≡ found (payload, p.timestamp_ns) r''
unfolding next_packet find_packet
next_found r e e' = rw (e, e', next_packet, find_packet) refl

-- One round of the loop over the blocks, with some fuel.
blocks_skip :
    (fuel : ℕ) (bytes : List ℕ) (r : PcapngReader) {rest : List ℕ} {r' : PcapngReader}
    → read_block bytes r ≡ some (skip rest r')
    → 0 < fuel
    → read_blocks fuel bytes r ≡ read_blocks (fuel - 1) rest r'
unfolding read_blocks
blocks_skip zero bytes r e h = absurd (omega arith)
blocks_skip (suc fuel) bytes r {rest} {r'} e h =
    let left : suc fuel - 1 ≡ fuel = omega arith in rw (e, left, read_blocks) refl

blocks_deliver :
    (fuel : ℕ) (bytes : List ℕ) (r : PcapngReader) {p : Packet} {rest : List ℕ} {r' : PcapngReader}
    → read_block bytes r ≡ some (deliver p rest r')
    → 0 < fuel
    → read_blocks fuel bytes r ≡ found p (record r' { file = some rest })
unfolding read_blocks
blocks_deliver zero bytes r e h = absurd (omega arith)
blocks_deliver (suc fuel) bytes r e h = rw (e, read_blocks) refl

blocks_end :
    (fuel : ℕ) (r : PcapngReader)
    → 0 < fuel
    → read_blocks fuel [] r ≡ ended (record r { file = some [] })
unfolding read_blocks read_block fread
blocks_end zero r h = absurd (omega arith)
blocks_end (suc fuel) r h = refl

packet_payload-store_frame :
    (f : Frame)
    → IsFrame f
    → (ticks : ℕ) (r r' : PcapngReader) → InterfaceInfo.link_type (interface_of r 0) ≡ 1
    → packet_payload (packet_of r ticks (store_frame f)) r' ≡ some (some f.payload, r')
unfolding packet_payload
packet_payload-store_frame f good ticks r r' link =
    let size = length (store_frame f) in
    rw (le→ltb size size (omega arith), link, ethernet_payload-store_frame f good) refl

abbrev pub payloads_of : InterfaceInfo → List (ℕ × Frame) → List (List ℕ × ℕ)
payloads_of info [] = []
payloads_of info ((ticks, f) ∷ packets) =
    (f.payload, ticks_to_ns info ticks) ∷ payloads_of info packets

-- Once the blocks in front are skipped, the packets come one by one.
store_packets-Yields :
    (packets : List (ℕ × Frame))
    → All IsStored packets
    → (q r : PcapngReader) (fuel : ℕ) → 0 < fuel
    → InterfaceInfo.link_type (interface_of r 0) ≡ 1
    → read_until_next_packet_block q ≡ read_blocks fuel (store_packets r.swapped_endian packets) r
    → Yields q (payloads_of (interface_of r 0) packets)
unfolding read_until_next_packet_block interface_of
store_packets-Yields [] good q r fuel h link e = finished (next_ended q (e ∙ blocks_end fuel r h))
store_packets-Yields ((ticks, f) ∷ packets) ((frame, size, time), good) q r fuel h link e =
    let rest = store_packets r.swapped_endian packets in
    let r' : PcapngReader = record r { file = some rest } in
    more
      (next_found q
        (e
          ∙ blocks_deliver fuel (store_packets r.swapped_endian ((ticks, f) ∷ packets)) r
              (read_block-store_packet ticks (store_frame f) rest r time size) h)
        (packet_payload-store_frame f frame ticks r r' link))
      (store_packets-Yields packets good r' r' (suc (length rest)) (omega arith) link refl)

-- A capture with a swapped or an unswapped section: the payloads of its frames in order, and
-- nothing else.
pub store_capture-Yields :
    (swapped : Bool) (snap_length resolution : ℕ) (packets : List (ℕ × Frame))
    → All IsStored packets
    → (r : PcapngReader) → r.file ≡ some (store_capture swapped snap_length resolution packets)
    → Yields r (payloads_of (stored_interface 1 resolution) packets)
unfolding read_until_next_packet_block interface_of
store_capture-Yields swapped snap_length resolution packets good r is_file =
    let tail = store_packets swapped packets in
    let described = store_interface swapped 1 snap_length resolution ++ tail in
    let bytes = store_capture swapped snap_length resolution packets in
    let fuel = length bytes in
    let r₁ : PcapngReader = record r { swapped_endian = swapped; interfaces = [] } in
    let r₂ : PcapngReader = record r₁ { interfaces = stored_interface 1 resolution ∷ [] } in
    let opened : read_until_next_packet_block r ≡ read_blocks (suc fuel) bytes r =
      rw is_file refl in
    store_packets-Yields packets good r r₂ (suc fuel - 1 - 1) (omega arith)
      (stored_interface-link_type 1 resolution)
      (opened
        ∙ (blocks_skip (suc fuel) bytes r (read_block-store_section swapped described r)
              (omega arith)
            ∙ blocks_skip (suc fuel - 1) described r₁
                (read_block-store_interface 1 snap_length resolution tail r₁ (omega arith))
                (omega arith)))
