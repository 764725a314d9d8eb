-- ===== src/Capture/FrameTrip.antt =====
-- src/pcapng_reader.h: `next_packet` takes out of a frame what was put into it, without the padding
-- that ethernet adds behind it.
use Prim.Native.Nat.{bit_and}
use mega_feed_handler.Base.{
  ℕ, suc, ◌+◌, ◌-◌, ◌*◌, ◌/◌, ◌%◌, ◌^◌, ◌≡◌, refl, ap, ◌∙◌, false, ◌||◌, some, List, ◌∷◌, ◌++◌,
  arith, ltb, length, drop, get_elem?, drop_add, take-append_of_length, length-append,
  get_elem?_add, le→ltb,
}
use mathlib.Core.List.{append_assoc}
use mega_feed_handler.Base.Bits.{◌>>>◌, bit_and_fifteen}
use mega_feed_handler.Capture.Order.{net_u16, net_u16_sum}
use mega_feed_handler.Capture.Frames.{clamped_payload, udp_payload, ip_payload, ethernet_payload}
use mega_feed_handler.Capture.Encode.{Frame, IsFrame, ip_header, udp_datagram, store_frame}

module _ (f : Frame) (good : IsFrame f) where
  abbrev frame : List ℕ
  frame = store_frame f

  abbrev size : ℕ
  size = length f.payload + 8

  length-ip_header : length (ip_header f) ≡ f.words * 4
  length-ip_header = omega (arith, good, length-append {0} f.ip_middle (17 ∷ f.ip_end))

  length-frame : length frame ≡ 14 + f.words * 4 + 8 + length f.payload + length f.trailer
  length-frame = omega (
    arith,
    good,
    length-ip_header,
    length-append {0} f.addresses (0x08 ∷ 0x00 ∷ (ip_header f ++ udp_datagram f)),
    length-append {0} (ip_header f) (udp_datagram f),
    length-append {0} f.ports
        (size / 2 ^ 8 ∷ size % 2 ^ 8 ∷ (f.checksum ++ (f.payload ++ f.trailer))),
    length-append {0} f.checksum (f.payload ++ f.trailer),
    length-append {0} f.payload f.trailer,
  )

  -- The frame from its IPv4 header on, and from its UDP header on.
  drop-ip : (n : ℕ) → drop (14 + n) frame ≡ drop n (ip_header f ++ udp_datagram f)
  drop-ip n =
      let e : 14 + n ≡ 12 + suc (suc n) = omega arith in
      rw e (
        drop_add 12 (suc (suc n)) f.addresses (0x08 ∷ 0x00 ∷ (ip_header f ++ udp_datagram f))
          good.addresses_length)

  drop-udp : (n : ℕ) → drop (14 + f.words * 4 + n) frame ≡ drop n (udp_datagram f)
  drop-udp n =
      let e : 14 + f.words * 4 + n ≡ 14 + (f.words * 4 + n) = omega arith in
      rw e (
        drop-ip (f.words * 4 + n)
        ∙ drop_add (f.words * 4) n (ip_header f) (udp_datagram f) length-ip_header)

  -- The fields that the reader looks at.
  ether_type : net_u16 (drop 12 frame) ≡ some 0x0800
  ether_type =
      ap net_u16 (
        drop_add 12 0 f.addresses (0x08 ∷ 0x00 ∷ (ip_header f ++ udp_datagram f))
          good.addresses_length)
      ∙ net_u16_sum 8 0 (ip_header f ++ udp_datagram f) (omega arith) (omega arith)

  first_byte : get_elem? frame 14 ≡ some (0x40 + f.words)
  first_byte =
      get_elem?_add 12 2 f.addresses (0x08 ∷ 0x00 ∷ (ip_header f ++ udp_datagram f))
        good.addresses_length

  protocol : get_elem? frame (14 + 9) ≡ some 17
  protocol =
      get_elem?_add 12 11 f.addresses (0x08 ∷ 0x00 ∷ (ip_header f ++ udp_datagram f))
        good.addresses_length
      ∙ (ap (λ xs. get_elem? xs 8) (append_assoc f.ip_middle (17 ∷ f.ip_end) (udp_datagram f))
          ∙ get_elem?_add 8 0 f.ip_middle (17 ∷ (f.ip_end ++ udp_datagram f)) good.middle_length)

  udp_total : net_u16 (drop (14 + f.words * 4 + 4) frame) ≡ some size
  udp_total =
      let rest = f.checksum ++ (f.payload ++ f.trailer) in
      ap net_u16
        (drop-udp 4 ∙ drop_add 4 0 f.ports (size / 2 ^ 8 ∷ size % 2 ^ 8 ∷ rest) good.ports_length)
      ∙ (net_u16_sum (size / 2 ^ 8) (size % 2 ^ 8) rest (omega (arith, good)) (omega arith)
          ∙ ap some (omega arith))

  behind_headers : drop (14 + f.words * 4 + 8) frame ≡ f.payload ++ f.trailer
  behind_headers =
      let rest = f.checksum ++ (f.payload ++ f.trailer) in
      drop-udp 8
      ∙ (drop_add 4 4 f.ports (size / 2 ^ 8 ∷ size % 2 ^ 8 ∷ rest) good.ports_length
          ∙ drop_add 2 0 f.checksum (f.payload ++ f.trailer) good.checksum_length)

  udp_payload-frame : udp_payload frame (length frame) (f.words * 4) ≡ some (some f.payload)
  unfolding udp_payload clamped_payload
  udp_payload-frame =
      let n = 14 + f.words * 4 + 8 in
      let long_enough : ltb size 8 ≡ false = le→ltb size 8 (omega arith) in
      let own : size - 8 ≡ length f.payload = omega arith in
      let room : ltb (length frame) (n + length f.payload) ≡ false =
        le→ltb (length frame) (n + length f.payload) (omega (arith, length-frame)) in
      rw (udp_total, long_enough, own, room)
        (rw (room, behind_headers)
          (ap (λ xs. some (some xs))
            (take-append_of_length (length f.payload) f.payload f.trailer refl)))

  -- A frame captured whole gives its payload.
  pub ethernet_payload-store_frame :
      ethernet_payload (store_frame f) (length (store_frame f)) ≡ some (some f.payload)
  unfolding ethernet_payload ip_payload
  ethernet_payload-store_frame =
      let version : (0x40 + f.words) >>> 4 ≡ 4 = omega (arith, good) in
      let words : bit_and (0x40 + f.words) 0x0f ≡ f.words =
        bit_and_fifteen (0x40 + f.words) ∙ omega (arith, good) in
      let long : ltb (length frame) 14 ≡ false =
        le→ltb (length frame) 14 (omega (arith, length-frame)) in
      let long' : ltb (length frame) (14 + 20) ≡ false =
        le→ltb (length frame) (14 + 20) (omega (arith, good, length-frame)) in
      let room : (ltb (f.words * 4) 20 || ltb (length frame) (14 + f.words * 4 + 8)) ≡ false =
        ground (arith, good, length-frame) in
      rw (ether_type, long, long', first_byte, version, words, room, protocol) udp_payload-frame
