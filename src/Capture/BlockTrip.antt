-- ===== src/Capture/BlockTrip.antt =====
-- src/pcapng_reader.h: an interface and a packet that were written are read back.
use Prim.Native.Nat.{bit_or}
use mega_feed_handler.Base.{
  ℕ, zero, ◌+◌, ◌-◌, ◌/◌, ◌%◌, ◌^◌, ◌<◌, ◌≤◌, ◌≡◌, refl, ◌∙◌, Bool, true, false, some, List, [],
  ◌∷◌, ◌++◌, arith, ltb, length, take, drop, take-append_of_length, length-append, length-replicate,
  le→ltb,
}
use mega_feed_handler.Base.Bits.{◌<<<◌, bit_or_low}
use mega_feed_handler.Wire.Bytes.{put_u16, put_u32, get_u16}
use mega_feed_handler.Capture.Order.{
  order_u16, order_u32, store_u16, store_u32, swap_u16, order_u16-store_u16, order_u32-store_u32,
  length-store_u32,
}
use mega_feed_handler.Capture.Defs.{InterfaceInfo, PcapngReader, Packet}
use mega_feed_handler.Capture.Blocks.{
  set_resolution, read_option, read_options, skip, deliver, interface_block, ticks_to_ns,
  interface_of, packet_block, typed_block, read_block,
}
use mega_feed_handler.Capture.Encode.{
  interface_body, store_interface, packet_body, store_packet, padding,
}
use mega_feed_handler.Capture.FileTrip.{fread-append, read_block-store_block}

length-interface_body :
    (swapped : Bool) (link_type snap_length resolution : ℕ)
    → length (interface_body swapped link_type snap_length resolution) ≡ 24
unfolding store_u16 store_u32 put_u16 put_u32
length-interface_body false link_type snap_length resolution = refl
length-interface_body true link_type snap_length resolution = refl

unfoldable pub stored_interface : ℕ → ℕ → InterfaceInfo
stored_interface link_type resolution =
    set_resolution resolution
      (record { link_type = link_type; ns_multiplier = 1000; ns_divisor = 1 })

-- The resolution is not about the link.
pub stored_interface-link_type :
    (link_type resolution : ℕ)
    → InterfaceInfo.link_type (stored_interface link_type resolution) ≡ link_type
unfolding stored_interface set_resolution
stored_interface-link_type link_type resolution = ground arith

read_options-interface_body :
    (swapped : Bool) (link_type snap_length resolution : ℕ) (info : InterfaceInfo)
    → read_options 25 swapped (interface_body swapped link_type snap_length resolution) 20 8 info
      ≡ some (set_resolution resolution info)
unfolding read_options read_option order_u16 swap_u16 get_u16 store_u16 store_u32 put_u16 put_u32
read_options-interface_body false link_type snap_length resolution info = refl
read_options-interface_body true link_type snap_length resolution info = refl

interface_block-interface_body :
    (link_type snap_length resolution : ℕ) (rest : List ℕ) (r : PcapngReader)
    → link_type < 2 ^ 16
    → interface_block (interface_body r.swapped_endian link_type snap_length resolution) rest r
      ≡ some (
          skip rest (record r {
            interfaces = r.interfaces ++ (stored_interface link_type resolution ∷ []);
          }))
unfolding interface_block stored_interface
interface_block-interface_body link_type snap_length resolution rest r h =
    let swapped = r.swapped_endian in
    let body = interface_body swapped link_type snap_length resolution in
    let info : InterfaceInfo = record {
      link_type = link_type;
      ns_multiplier = 1000;
      ns_divisor = 1;
    } in
    let link : order_u16 swapped body ≡ some link_type =
      order_u16-store_u16 swapped link_type _ h in
    rw
      (
        link,
        length-interface_body swapped link_type snap_length resolution,
        read_options-interface_body swapped link_type snap_length resolution info,
        interface_block,
      )
      refl

-- An interface is added to those of the section.
pub read_block-store_interface :
    (link_type snap_length resolution : ℕ) (rest : List ℕ) (r : PcapngReader)
    → link_type < 2 ^ 16
    → read_block (store_interface r.swapped_endian link_type snap_length resolution ++ rest) r
      ≡ some (
          skip rest (record r {
            interfaces = r.interfaces ++ (stored_interface link_type resolution ∷ []);
          }))
unfolding typed_block
read_block-store_interface link_type snap_length resolution rest r h =
    let body = interface_body r.swapped_endian link_type snap_length resolution in
    let size = length-interface_body r.swapped_endian link_type snap_length resolution in
    read_block-store_block 1 body rest r (omega arith) (omega (arith, size)) (omega (arith, size))
    ∙ rw (fread-append (length body) body rest refl)
        (interface_block-interface_body link_type snap_length resolution rest r h)

-- The time of a packet of the interface 0.
abbrev pub packet_of : PcapngReader → ℕ → List ℕ → Packet
packet_of r ticks frame = record {
  packet_data = frame;
  captured_length = length frame;
  timestamp_ns = ticks_to_ns (interface_of r 0) ticks;
  wire_length = length frame;
  packet_link_type = InterfaceInfo.link_type (interface_of r 0);
}

-- The fields of a packet's body, one behind the other.
module _ (ticks : ℕ) (frame : List ℕ) where
  abbrev behind_frame : Bool → List ℕ
  behind_frame swapped =
      padding (length frame)
      ++ store_u32 swapped (length frame + length (padding (length frame)) + 32)

  length-behind_frame :
      (swapped : Bool) → length (behind_frame swapped) ≡ length (padding (length frame)) + 4
  length-behind_frame swapped =
      let last = store_u32 swapped (length frame + length (padding (length frame)) + 32) in
      omega (
        arith,
        length-append {0} (padding (length frame)) last,
        length-store_u32 swapped (length frame + length (padding (length frame)) + 32),
      )

  length-packet_body :
      (swapped : Bool)
      → length (packet_body swapped ticks frame)
        ≡ 24 + length frame + length (padding (length frame))
  unfolding store_u32 put_u32
  length-packet_body false =
      omega (arith, length-append {0} frame (behind_frame false), length-behind_frame false)
  length-packet_body true =
      omega (arith, length-append {0} frame (behind_frame true), length-behind_frame true)

  high_field :
      (swapped : Bool)
      → drop 4 (packet_body swapped ticks frame)
        ≡ store_u32 swapped (ticks / 2 ^ 32) ++ drop 8 (packet_body swapped ticks frame)
  unfolding store_u32 put_u32
  high_field false = refl
  high_field true = refl

  low_field :
      (swapped : Bool)
      → drop 8 (packet_body swapped ticks frame)
        ≡ store_u32 swapped (ticks % 2 ^ 32) ++ drop 12 (packet_body swapped ticks frame)
  unfolding store_u32 put_u32
  low_field false = refl
  low_field true = refl

  captured_field :
      (swapped : Bool)
      → drop 12 (packet_body swapped ticks frame)
        ≡ store_u32 swapped (length frame) ++ drop 16 (packet_body swapped ticks frame)
  unfolding store_u32 put_u32
  captured_field false = refl
  captured_field true = refl

  wire_field :
      (swapped : Bool)
      → drop 16 (packet_body swapped ticks frame)
        ≡ store_u32 swapped (length frame) ++ drop 20 (packet_body swapped ticks frame)
  unfolding store_u32 put_u32
  wire_field false = refl
  wire_field true = refl

  data_field :
      (swapped : Bool) → drop 20 (packet_body swapped ticks frame) ≡ frame ++ behind_frame swapped
  unfolding store_u32 put_u32
  data_field false = refl
  data_field true = refl

  -- A field is read as the number that was stored.
  field_read :
      (swapped : Bool) (v : ℕ) {bytes : List ℕ} (rest : List ℕ)
      → bytes ≡ store_u32 swapped v ++ rest
      → v < 2 ^ 32
      → order_u32 swapped bytes ≡ some v
  field_read swapped v rest e h = rw e (order_u32-store_u32 swapped v rest h)

  packet_block-packet_body :
      (rest : List ℕ) (r : PcapngReader)
      → ticks < 2 ^ 64
      → length frame < 2 ^ 24
      → packet_block (packet_body r.swapped_endian ticks frame) rest r
        ≡ some (deliver (packet_of r ticks frame) rest r)
  unfolding packet_block
  packet_block-packet_body rest r h l =
      let swapped = r.swapped_endian in
      let body = packet_body swapped ticks frame in
      let interface_id : order_u32 swapped body ≡ some 0 =
        order_u32-store_u32 swapped 0 _ (omega arith) in
      let room : ltb (length body) (length frame + 24) ≡ false =
        le→ltb (length body) (length frame + 24) (omega (arith, length-packet_body swapped)) in
      let time : bit_or ((ticks / 2 ^ 32) <<< 32) (ticks % 2 ^ 32) ≡ ticks =
        bit_or_low 32 (ticks / 2 ^ 32) (ticks % 2 ^ 32) (omega arith) ∙ omega arith in
      let stored : take (length frame) (drop 20 body) ≡ frame =
        rw (data_field swapped)
          (take-append_of_length (length frame) frame (behind_frame swapped) refl) in
      rw
        (
          interface_id,
          field_read swapped (ticks / 2 ^ 32) (drop 8 body) (high_field swapped) (omega arith),
          field_read swapped (ticks % 2 ^ 32) (drop 12 body) (low_field swapped) (omega arith),
          field_read swapped (length frame) (drop 16 body) (captured_field swapped) (omega arith),
          field_read swapped (length frame) (drop 20 body) (wire_field swapped) (omega arith),
          room,
          time,
          stored,
          packet_block,
        )
        refl

  -- A packet of the interface 0 is delivered with the frame that was stored.
  pub read_block-store_packet :
      (rest : List ℕ) (r : PcapngReader)
      → ticks < 2 ^ 64
      → length frame + 35 ≤ 2 ^ 24
      → read_block (store_packet r.swapped_endian ticks frame ++ rest) r
        ≡ some (deliver (packet_of r ticks frame) rest r)
  unfolding typed_block
  read_block-store_packet rest r h l =
      let body = packet_body r.swapped_endian ticks frame in
      let size = length-packet_body r.swapped_endian in
      let short : length (padding (length frame)) < 4 =
        omega (arith, length-replicate ((4 - length frame % 4) % 4) zero) in
      read_block-store_block 6 body rest r (omega arith) (omega (arith, size))
        (omega (arith, size, short))
      ∙ rw (fread-append (length body) body rest refl)
          (packet_block-packet_body rest r h (omega arith))
