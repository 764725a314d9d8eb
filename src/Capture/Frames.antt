-- ===== src/Capture/Frames.antt =====
-- src/pcapng_reader.h: `next_packet`, which finds the payload of a UDP datagram in a packet.
use Prim.Native.Nat.{bit_and}
use mega_feed_handler.Base.{
  ℕ, zero, suc, ◌+◌, ◌-◌, ◌*◌, true, not, ◌||◌, Option, none, some, List, ltb, ◌==◌, length, take,
  drop, get_elem?, if◌then◌else◌, ◌>>=◌,
}
use mega_feed_handler.Base.Bits.{◌>>>◌}
use mega_feed_handler.Capture.Order.{net_u16}
use mega_feed_handler.Capture.Defs.{PcapngReader, Packet}
use mega_feed_handler.Capture.Blocks.{
  Reading, ended, found, fault, out_of_fuel, read_until_next_packet_block,
}

-- In all of these the outer `none` is a read out of range, and the inner one is `continue`.
unfoldable pub clamped_payload : List ℕ → ℕ → ℕ → ℕ → Option (List ℕ)
clamped_payload packet_data captured_length payload_offset payload_length =
    let length' =
      if ltb captured_length (payload_offset + payload_length)
      then captured_length - payload_offset
      else payload_length in
    if ltb (length packet_data) (payload_offset + length')
    then none
    else some (take length' (drop payload_offset packet_data))

unfoldable pub udp_payload : List ℕ → ℕ → ℕ → Option (Option (List ℕ))
udp_payload packet_data captured_length ip_header_length =
    net_u16 (drop (14 + ip_header_length + 4) packet_data) >>= λ udp_total.
    (if ltb udp_total 8 then some none else (do
      payload ←
          clamped_payload packet_data captured_length (14 + ip_header_length + 8) (udp_total - 8)
      some (some payload)))

unfoldable pub ip_payload : List ℕ → ℕ → Option (Option (List ℕ))
ip_payload packet_data captured_length = get_elem? packet_data 14 >>= λ first.
    (if not ((first >>> 4) == 4)
      then some none
      else (let ip_header_length = bit_and first 0x0f * 4 in
          if ltb ip_header_length 20 || ltb captured_length (14 + ip_header_length + 8)
          then some none
          else (get_elem? packet_data (14 + 9) >>= λ protocol.
              (if not (protocol == 17)
                then some none
                else udp_payload packet_data captured_length ip_header_length))))

unfoldable pub ethernet_payload : List ℕ → ℕ → Option (Option (List ℕ))
ethernet_payload packet_data captured_length =
    if ltb captured_length 14
    then some none
    else (net_u16 (drop 12 packet_data) >>= λ ether_type.
        (if not (ether_type == 0x0800)
          then some none
          else (if ltb captured_length (14 + 20)
              then some none
              else ip_payload packet_data captured_length)))

-- A packet of the file: its payload if it has one, and the reader with its warnings.
unfoldable pub packet_payload : Packet → PcapngReader → Option (Option (List ℕ) × PcapngReader)
packet_payload p r =
    if ltb p.captured_length p.wire_length
    then some (none, record r { warned_truncated = true })
    else (if not (p.packet_link_type == 1)
        then some (none, record r { warned_link_type = true })
        else (do payload ← ethernet_payload p.packet_data p.captured_length; some (payload, r)))

-- The payload and its time.
unfoldable pub find_packet : ℕ → PcapngReader → Reading (List ℕ × ℕ)
find_packet zero r = out_of_fuel
find_packet (suc fuel) r = elim (read_until_next_packet_block r) [
  | ended r' ↦ ended r'
  | fault ↦ fault
  | out_of_fuel ↦ out_of_fuel
  | found p r' ↦ elim (packet_payload p r') [
    | none ↦ fault
    | some (none, r'') ↦ find_packet fuel r''
    | some (some payload, r'') ↦ found (payload, p.timestamp_ns) r''
  ]
]

unfoldable pub bytes_left : PcapngReader → ℕ
bytes_left r = elim r.file [ none ↦ 0 | some bytes ↦ length bytes ]

-- Each round that goes on takes a block at least.
unfoldable pub next_packet : PcapngReader → Reading (List ℕ × ℕ)
next_packet r = find_packet (suc (bytes_left r)) r
