-- ===== src/Capture/Encode.antt =====
-- A writer of captures, as the pcapng format and the protocols describe them: a section in either
-- byte order, its interface, and packets that are UDP datagrams in frames.
use mega_feed_handler.Base.{
  ℕ, ◌+◌, ◌-◌, ◌*◌, ◌/◌, ◌%◌, ◌^◌, ◌<◌, ◌≤◌, ◌≡◌, Bool, List, [], ◌∷◌, ◌++◌, length, replicate,
}
use mega_feed_handler.Capture.Order.{store_u16, store_u32}

abbrev pub store_section : Bool → List ℕ
store_section swapped =
    (0x0a ∷ 0x0d ∷ 0x0d ∷ 0x0a ∷ [])
    ++ (store_u32 swapped 28
        ++ (store_u32 swapped 0x1a2b3c4d
            ++ (store_u16 swapped 1
                ++ (store_u16 swapped 0 ++ (replicate 8 0xff ++ store_u32 swapped 28)))))

-- An interface with one option, its time resolution.
abbrev pub interface_body : Bool → ℕ → ℕ → ℕ → List ℕ
interface_body swapped link_type snap_length resolution =
    store_u16 swapped link_type
    ++ (store_u16 swapped 0
        ++ (store_u32 swapped snap_length
            ++ (store_u16 swapped 9
                ++ (store_u16 swapped 1
                    ++ ((resolution ∷ 0 ∷ 0 ∷ 0 ∷ [])
                        ++ (store_u16 swapped 0
                            ++ (store_u16 swapped 0 ++ store_u32 swapped 32)))))))

abbrev pub store_block : Bool → ℕ → List ℕ → List ℕ
store_block swapped block_type body =
    store_u32 swapped block_type ++ (store_u32 swapped (length body + 8) ++ body)

abbrev pub store_interface : Bool → ℕ → ℕ → ℕ → List ℕ
store_interface swapped link_type snap_length resolution =
    store_block swapped 1 (interface_body swapped link_type snap_length resolution)

-- The zeros up to a multiple of four.
abbrev pub padding : ℕ → List ℕ
padding n = replicate ((4 - n % 4) % 4) 0

-- A packet of interface 0 that is captured whole, at a time in ticks.
abbrev pub packet_body : Bool → ℕ → List ℕ → List ℕ
packet_body swapped ticks frame =
    store_u32 swapped 0
    ++ (store_u32 swapped (ticks / 2 ^ 32)
        ++ (store_u32 swapped (ticks % 2 ^ 32)
            ++ (store_u32 swapped (length frame)
                ++ (store_u32 swapped (length frame)
                    ++ (frame
                        ++ (padding (length frame)
                            ++ store_u32 swapped
                                (length frame + length (padding (length frame)) + 32)))))))

abbrev pub store_packet : Bool → ℕ → List ℕ → List ℕ
store_packet swapped ticks frame = store_block swapped 6 (packet_body swapped ticks frame)

-- A UDP datagram in an IPv4 packet in an ethernet frame; `words` is the length of the IPv4 header,
-- and the parts that the reader does not look at are lists of the right length.
pub record Frame : Type 0 where
  pub addresses : List ℕ
  pub words : ℕ
  pub ip_middle : List ℕ
  pub ip_end : List ℕ
  pub ports : List ℕ
  pub checksum : List ℕ
  pub payload : List ℕ
  pub trailer : List ℕ

pub record IsFrame (f : Frame) : Type 0 where
  pub addresses_length : length f.addresses ≡ 12
  pub words_ge : 5 ≤ f.words
  pub words_lt : f.words < 16
  pub middle_length : length f.ip_middle ≡ 8
  pub end_length : length f.ip_end + 10 ≡ f.words * 4
  pub ports_length : length f.ports ≡ 4
  pub checksum_length : length f.checksum ≡ 2
  pub payload_lt : length f.payload + 8 < 2 ^ 16

abbrev pub ip_header : Frame → List ℕ
ip_header f = (0x40 + f.words) ∷ (f.ip_middle ++ (17 ∷ f.ip_end))

abbrev pub udp_datagram : Frame → List ℕ
udp_datagram f =
    let size = length f.payload + 8 in
    f.ports ++ (size / 2 ^ 8 ∷ size % 2 ^ 8 ∷ (f.checksum ++ (f.payload ++ f.trailer)))

abbrev pub store_frame : Frame → List ℕ
store_frame f = f.addresses ++ (0x08 ∷ 0x00 ∷ (ip_header f ++ udp_datagram f))

-- A capture of one section with one ethernet interface: packets with their times in ticks.
abbrev pub store_packets : Bool → List (ℕ × Frame) → List ℕ
store_packets swapped [] = []
store_packets swapped ((ticks, f) ∷ packets) =
    store_packet swapped ticks (store_frame f) ++ store_packets swapped packets

abbrev pub store_capture : Bool → ℕ → ℕ → List (ℕ × Frame) → List ℕ
store_capture swapped snap_length resolution packets =
    store_section swapped
    ++ (store_interface swapped 1 snap_length resolution ++ store_packets swapped packets)

-- The packets fit: the frame is one, the block is not over the limit, and the time is 64 bits.
abbrev pub IsStored : ℕ × Frame → Type 0
IsStored (ticks, f) = IsFrame f × (length (store_frame f) + 35 ≤ 2 ^ 24) × (ticks < 2 ^ 64)
