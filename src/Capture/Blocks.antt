-- ===== src/Capture/Blocks.antt =====
-- src/pcapng_reader.h: `read_until_next_packet_block`. A pointer into the body of a block is the
-- list of the bytes from it on, and a read past its end is `none`.
use Prim.Native.Nat.{bit_or, bit_and}
use mega_feed_handler.Base.{
  ℕ, zero, suc, ◌+◌, ◌-◌, ◌*◌, ◌/◌, ◌%◌, ◌^◌, Bool, true, false, not, ◌&&◌, ◌||◌, Option, none,
  some, List, [], ◌∷◌, ◌++◌, ltb, leb, ◌==◌, length, take, drop, get_elem?, if◌then◌else◌, ◌>>=◌,
}
use mega_feed_handler.Base.Bits.{◌<<<◌, u64}
use mega_feed_handler.Wire.Bytes.{get_u32}
use mega_feed_handler.Capture.Order.{order_u16, order_u32}
use mega_feed_handler.Capture.Defs.{
  InterfaceInfo, PcapngReader, Packet, max_block_length, section_kind, fread,
}

-- The loop of `pow10`: `n` rounds are left.
unfoldable pub pow10_loop : ℕ → ℕ → ℕ
pow10_loop zero result = result
pow10_loop (suc n) result = pow10_loop n (u64 (result * 10))

unfoldable pub pow10 : ℕ → ℕ
unfolding pow10_loop
pow10 n = pow10_loop n 1

-- `if_tsresol`: what its byte makes of an interface.
unfoldable pub set_resolution : ℕ → InterfaceInfo → InterfaceInfo
set_resolution timestamp_resolution info =
    let exponent = bit_and timestamp_resolution 0x7f in
    if not (bit_and timestamp_resolution 0x80 == 0)
    then (if ltb exponent 64
        then record info { ns_multiplier = 1_000_000_000; ns_divisor = 1 <<< exponent }
        else info)
    else (if leb exponent 9
        then record info { ns_multiplier = pow10 (9 - exponent); ns_divisor = 1 }
        else info)

-- One option that is not the end of the options.
unfoldable pub read_option : List ℕ → ℕ → ℕ → ℕ → ℕ → InterfaceInfo → Option InterfaceInfo
read_option body option_end option_offset option_code option_length info =
    if option_code == 9 && leb 1 option_length && ltb (option_offset + 4) option_end
    then (do
      timestamp_resolution ← get_elem? body (option_offset + 4)
      some (set_resolution timestamp_resolution info))
    else some info

-- The loop over the options from `option_offset` on. Each moves that by four at least, so the
-- length of the body is fuel enough.
unfoldable pub read_options : ℕ → Bool → List ℕ → ℕ → ℕ → InterfaceInfo → Option InterfaceInfo
read_options zero swapped body option_end option_offset info = none
read_options (suc fuel) swapped body option_end option_offset info =
    if leb (option_offset + 4) option_end
    then (order_u16 swapped (drop option_offset body) >>= λ option_code.
        (order_u16 swapped (drop (option_offset + 2) body) >>= λ option_length.
        (if option_code == 0
          then some info
          else (read_option body option_end option_offset option_code option_length info
              >>= λ info'.
                  read_options fuel swapped body option_end
                    (option_offset + (4 + bit_and (option_length + 3) 0xfffffffc)) info'))))
    else some info

-- What one round of the loop does: it returns false, it goes on, or it has a packet. The list is
-- the file behind it.
pub data Round : Type 0 where
  stop : List ℕ → PcapngReader → Round
  skip : List ℕ → PcapngReader → Round
  deliver : Packet → List ℕ → PcapngReader → Round

-- A section header, behind its byte order magic.
unfoldable pub section_length : List ℕ → List ℕ → PcapngReader → Option Round
section_length block_header rest r =
    order_u32 r.swapped_endian (drop 4 block_header) >>= λ block_total_length. some (
      if ltb block_total_length 28 || ltb max_block_length block_total_length
      then stop rest r
      else skip (drop (block_total_length - 12) rest) (record r { interfaces = [] }))

unfoldable pub section_block : List ℕ → List ℕ → PcapngReader → Option Round
section_block block_header bytes r = elim (fread 4 bytes) [
  | none ↦ some (stop [] r)
  | some (byte_order_magic, rest) ↦ get_u32 byte_order_magic >>= λ magic.
      (if magic == 0x1a2b3c4d
        then section_length block_header rest (record r { swapped_endian = false })
        else (if magic == 0x4d3c2b1a
            then section_length block_header rest (record r { swapped_endian = true })
            else some (stop rest r)))
]

unfoldable pub interface_block : List ℕ → List ℕ → PcapngReader → Option Round
interface_block body rest r = do
  link_type ← order_u16 r.swapped_endian body
  info ←
      read_options (suc (length body)) r.swapped_endian body
        (if leb 4 (length body) then length body - 4 else 0) 8
        (record { link_type = link_type; ns_multiplier = 1000; ns_divisor = 1 })
  some (skip rest (record r { interfaces = r.interfaces ++ (info ∷ []) }))

-- `(uint64_t)((unsigned __int128)ticks * multiplier / divisor)`
unfoldable pub ticks_to_ns : InterfaceInfo → ℕ → ℕ
ticks_to_ns info ticks = u64 ((ticks * info.ns_multiplier) % 2 ^ 128 / info.ns_divisor)

unfoldable pub interface_of : PcapngReader → ℕ → InterfaceInfo
interface_of r interface_id = elim (get_elem? r.interfaces interface_id) [
  | none ↦ record { link_type = 1; ns_multiplier = 1000; ns_divisor = 1 }
  | some info ↦ info
]

unfoldable pub packet_block : List ℕ → List ℕ → PcapngReader → Option Round
packet_block body rest r = do
  interface_id ← order_u32 r.swapped_endian body
  high ← order_u32 r.swapped_endian (drop 4 body)
  low ← order_u32 r.swapped_endian (drop 8 body)
  captured_length ← order_u32 r.swapped_endian (drop 12 body)
  wire_length ← order_u32 r.swapped_endian (drop 16 body)
  some (
      if ltb (length body) (captured_length + 24)
      then skip rest r
      else deliver
          (record {
            packet_data = take captured_length (drop 20 body);
            captured_length = captured_length;
            timestamp_ns = ticks_to_ns (interface_of r interface_id) (bit_or (high <<< 32) low);
            wire_length = wire_length;
            packet_link_type = InterfaceInfo.link_type (interface_of r interface_id);
          })
          rest r)

-- A block of a type and a total length that are read: its body is read whole, or it is skipped.
unfoldable pub typed_block : ℕ → ℕ → List ℕ → PcapngReader → Option Round
typed_block block_type remaining_length bytes r =
    if block_type == 1 || block_type == 6
    then (elim (fread remaining_length bytes) [
      | none ↦ some (stop [] r)
      | some (body, rest) ↦
          if block_type == 1 then interface_block body rest r else packet_block body rest r
    ])
    else some (skip (drop remaining_length bytes) r)

unfoldable pub other_block : List ℕ → List ℕ → PcapngReader → Option Round
other_block block_header bytes r = order_u32 r.swapped_endian block_header >>= λ block_type.
    (order_u32 r.swapped_endian (drop 4 block_header) >>= λ total_length.
    (if ltb total_length 12 || ltb max_block_length total_length
      then some (stop bytes r)
      else typed_block block_type (total_length - 8) bytes r))

-- One round of the loop.
unfoldable pub read_block : List ℕ → PcapngReader → Option Round
read_block bytes r = elim (fread 8 bytes) [
  | none ↦ some (stop [] r)
  | some (block_header, rest) ↦ get_u32 block_header >>= λ kind.
      (if kind == section_kind
        then section_block block_header rest r
        else other_block block_header rest r)
]

-- How a reading ends: with `false`, with a value, by a read out of range, or not within the fuel.
pub data Reading {ℓ} (A : Type ℓ) : Type ℓ where
  ended : PcapngReader → Reading A
  found : A → PcapngReader → Reading A
  fault : Reading A
  out_of_fuel : Reading A

unfoldable pub read_blocks : ℕ → List ℕ → PcapngReader → Reading Packet
read_blocks zero bytes r = out_of_fuel
read_blocks (suc fuel) bytes r = elim (read_block bytes r) [
  | none ↦ fault
  | some (stop rest r') ↦ ended (record r' { file = some rest })
  | some (skip rest r') ↦ read_blocks fuel rest r'
  | some (deliver packet rest r') ↦ found packet (record r' { file = some rest })
]

-- Each round that goes on takes eight bytes at least.
unfoldable pub read_until_next_packet_block : PcapngReader → Reading Packet
read_until_next_packet_block r = elim r.file [
  | none ↦ ended r
  | some bytes ↦ read_blocks (suc (length bytes)) bytes r
]
