-- ===== src/Capture/Payload.antt =====
-- src/pcapng_reader.h: `next_packet` finds a payload within the packet, or skips it, whatever the
-- packet's bytes are.
use Prim.Native.Nat.{bit_and}
use mega_feed_handler.Base.{
  ℕ, ◌+◌, ◌-◌, ◌*◌, ◌^◌, ◌<◌, ◌≤◌, ◌≡◌, ◌⊎◌, inl, inr, refl, not, ◌||◌, Option, none, some, List,
  arith, ltb, ◌==◌, if◌then◌else◌, length, drop, get_elem?_at, le→ltb, All-take, All-drop,
  length-take, length-drop, if_cases, Succeeds, succeeds, Succeeds->>=,
}
use mega_feed_handler.Base.Bits.{◌>>>◌}
use mega_feed_handler.Wire.Bytes.{IsBytes}
use mega_feed_handler.Capture.Order.{net_u16, net_u16_in}
use mega_feed_handler.Capture.Defs.{PcapngReader, Packet}
use mega_feed_handler.Capture.Frames.{
  clamped_payload, udp_payload, ip_payload, ethernet_payload, packet_payload,
}
use mega_feed_handler.Capture.Reads.{IsPacket}

-- The payload of a packet of `captured` bytes, if it has one: the three headers are not in it.
abbrev pub IsPayload : ℕ → Option (List ℕ) → Type 0
IsPayload captured none = Unit {0}
IsPayload captured (some payload) = IsBytes payload × (length payload + 42 ≤ captured)

module _ (frame : List ℕ) (bs : IsBytes frame) (captured : ℕ) (size : length frame ≡ captured) where
  clamped_payload_in :
      (offset wanted : ℕ)
      → offset ≤ captured
      → 42 ≤ offset
      → Succeeds
          (λ payload. IsPayload captured (some payload))
          (clamped_payload frame captured offset wanted)
  unfolding clamped_payload
  clamped_payload_in offset wanted h headers =
      let taken : ℕ = if ltb captured (offset + wanted) then captured - offset else wanted in
      let fits : offset + taken ≤ captured = ground arith in
      let behind = length-drop {0} offset frame in
      rw (le→ltb (length frame) (offset + taken) (omega arith)) (
        succeeds (
          All-take _ taken (drop offset frame) (All-drop _ offset frame bs),
          omega (arith, length-take taken (drop offset frame) (omega arith)),
        ))

  net_u16_at :
      (offset : ℕ)
      → offset + 2 ≤ captured
      → Succeeds (λ v. v < 2 ^ 16) (net_u16 (drop offset frame))
  net_u16_at offset h = net_u16_in (drop offset frame) (omega (arith, length-drop {0} offset frame))

  udp_payload_in :
      (ip_header_length : ℕ)
      → 20 ≤ ip_header_length
      → 14 + ip_header_length + 8 ≤ captured
      → Succeeds (IsPayload captured) (udp_payload frame captured ip_header_length)
  unfolding udp_payload
  udp_payload_in n l h = Succeeds->>= (net_u16_at (14 + n + 4) (omega arith)) (λ total _.
      if_cases (Succeeds (IsPayload captured)) (ltb total 8) (λ _. succeeds tt)
        (λ _.
          Succeeds->>= (clamped_payload_in (14 + n + 8) (total - 8) (omega arith) (omega arith))
            (λ payload fine. succeeds fine)))

  ip_payload_in : 34 ≤ captured → Succeeds (IsPayload captured) (ip_payload frame captured)
  unfolding ip_payload
  ip_payload_in h = Succeeds->>= (get_elem?_at frame 14 (omega arith)) (λ first _.
      if_cases (Succeeds (IsPayload captured)) (not ((first >>> 4) == 4)) (λ _. succeeds tt)
        (λ _.
          let n = bit_and first 0x0f * 4 in
          if_cases (Succeeds (IsPayload captured)) (ltb n 20 || ltb captured (14 + n + 8))
            (λ _. succeeds tt)
            (λ room. Succeeds->>= (get_elem?_at frame (14 + 9) (omega arith)) (λ protocol _.
              if_cases (Succeeds (IsPayload captured)) (not (protocol == 17)) (λ _. succeeds tt)
                (λ _. udp_payload_in n (ground arith) (ground arith))))))

  pub ethernet_payload_in : Succeeds (IsPayload captured) (ethernet_payload frame captured)
  unfolding ethernet_payload
  ethernet_payload_in =
      if_cases (Succeeds (IsPayload captured)) (ltb captured 14) (λ _. succeeds tt)
        (λ room. Succeeds->>= (net_u16_at 12 (ground arith)) (λ ether_type _.
          if_cases (Succeeds (IsPayload captured)) (not (ether_type == 0x0800)) (λ _. succeeds tt)
            (λ _.
              if_cases (Succeeds (IsPayload captured)) (ltb captured (14 + 20)) (λ _. succeeds tt)
                (λ room'. ip_payload_in (ground arith)))))

-- What the loop of `next_packet` does with a packet: the file and its interfaces stay.
abbrev pub IsHandled : Packet → PcapngReader → Option (List ℕ) × PcapngReader → Type 0
IsHandled p r (payload, r') =
    IsPayload p.captured_length payload × (r'.file ≡ r.file) × (r'.interfaces ≡ r.interfaces)

pub packet_payload_in :
    (p : Packet) → IsPacket p → (r : PcapngReader) → Succeeds (IsHandled p r) (packet_payload p r)
unfolding packet_payload
packet_payload_in p good r =
    if_cases (Succeeds (IsHandled p r)) (ltb p.captured_length p.wire_length)
      (λ _. succeeds (tt, refl, refl))
      (λ _.
        if_cases (Succeeds (IsHandled p r)) (not (p.packet_link_type == 1))
          (λ _. succeeds (tt, refl, refl))
          (λ _.
            Succeeds->>=
              (ethernet_payload_in p.packet_data good.data_IsBytes p.captured_length
                good.data_length)
              (λ payload fine. succeeds (fine, refl, refl))))

-- The same, told by whether there is a payload.
pub packet_payload_cases :
    (p : Packet)
    → IsPacket p
    → (r : PcapngReader)
    → ((r' : PcapngReader) × (packet_payload p r ≡ some (none, r'))
        × (r'.file ≡ r.file)
        × (r'.interfaces ≡ r.interfaces))
      ⊎ ((payload : List ℕ) × (r' : PcapngReader) × (packet_payload p r ≡ some (some payload, r'))
          × (r'.file ≡ r.file)
          × (r'.interfaces ≡ r.interfaces)
          × IsBytes payload)
packet_payload_cases p good r =
    let ((o, r'), e, fine) = packet_payload_in p good r in payload_cases o r' e fine
  where
    payload_cases :
        (o : Option (List ℕ)) (r' : PcapngReader)
        → packet_payload p r ≡ some (o, r')
        → IsHandled p r (o, r')
        → ((r' : PcapngReader) × (packet_payload p r ≡ some (none, r'))
            × (r'.file ≡ r.file)
            × (r'.interfaces ≡ r.interfaces))
          ⊎ ((payload : List ℕ) × (r' : PcapngReader) × (packet_payload p r
                ≡ some (some payload, r'))
              × (r'.file ≡ r.file)
              × (r'.interfaces ≡ r.interfaces)
              × IsBytes payload)
    payload_cases none r' e (_, file, interfaces) = inl (r', e, file, interfaces)
    payload_cases (some payload) r' e ((bs, _), file, interfaces) =
        inr (payload, r', e, file, interfaces, bs)
