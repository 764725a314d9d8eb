-- ===== src/Capture/Reads.antt =====
-- src/pcapng_reader.h: the reads of `read_until_next_packet_block` stay within the block they are
-- about, but for a packet block that is too short for its own header.
use mega_feed_handler.Base.{
  ℕ, suc, ◌+◌, ◌-◌, ◌≤◌, ◌≡◌, ◌⊎◌, inl, inr, refl, ◌||◌, none, some, List, arith, ltb, leb,
  if◌then◌else◌, length, take, drop, All, All-append, All-take, All-drop, length-take, length-drop,
  le→ltb, if_cases, Bool-cases, Succeeds, succeeds, Succeeds->>=,
}
use mega_feed_handler.Wire.Bytes.{IsBytes}
use mega_feed_handler.Capture.Order.{order_u16_in, order_u32_in, u32_at}
use mega_feed_handler.Capture.Defs.{PcapngReader, Packet, max_block_length, fread}
use mega_feed_handler.Capture.Blocks.{
  Round, stop, skip, deliver, section_length, interface_block, packet_block,
}
use mega_feed_handler.Capture.Interfaces.{IsInterface, read_options_in}

-- A packet as it is handed back.
pub record IsPacket (p : Packet) : Type 0 where
  pub data_IsBytes : IsBytes p.packet_data
  pub data_length : length p.packet_data ≡ p.captured_length

-- A round of the loop from a file of `n` bytes: the interfaces stay good, and going on takes a
-- block header at least.
abbrev pub IsRound : ℕ → Round → Type 0
IsRound n (stop rest r) = IsBytes rest × All IsInterface r.interfaces
IsRound n (skip rest r) = IsBytes rest × All IsInterface r.interfaces × (length rest + 8 ≤ n)
IsRound n (deliver p rest r) =
    IsBytes rest × All IsInterface r.interfaces × (length rest + 8 ≤ n) × IsPacket p

pub fread_lem :
    (n : ℕ) (bytes : List ℕ) → n ≤ length bytes → fread n bytes ≡ some (take n bytes, drop n bytes)
unfolding fread
fread_lem n bytes h = rw (le→ltb (length bytes) n h) refl

pub fread_cases :
    (n : ℕ) (bytes : List ℕ)
    → (fread n bytes ≡ none)
      ⊎ ((fread n bytes ≡ some (take n bytes, drop n bytes)) × (n ≤ length bytes))
unfolding fread
fread_cases n bytes = elim (Bool-cases (ltb (length bytes) n)) [
  | inl short ↦ inl (rw short refl)
  | inr long ↦ inr (rw long refl, ground arith)
]

-- A file that is at the body or behind it.
module _ (n : ℕ) (rest : List ℕ) (rs : IsBytes rest) (r : PcapngReader)
    (good : All IsInterface r.interfaces) where
  pub interface_block_in :
      (body : List ℕ)
      → IsBytes body
      → 4 ≤ length body
      → length rest + 8 ≤ n
      → Succeeds (IsRound n) (interface_block body rest r)
  unfolding interface_block
  interface_block_in body bs l taken =
      Succeeds->>= (order_u16_in r.swapped_endian body bs (omega arith)) (λ link _.
        Succeeds->>=
          (read_options_in r.swapped_endian body bs
            (if leb 4 (length body) then length body - 4 else 0) (ground arith) (suc (length body))
            8 (record { multiplier_le = omega arith; divisor_pos = omega arith }) (omega arith)
            (ground arith))
          (λ info info_good.
            succeeds (rs, All-append _ r.interfaces _ good (info_good, tt), taken)))

  pub packet_block_in :
      (body : List ℕ)
      → IsBytes body
      → 20 ≤ length body
      → length rest + 8 ≤ n
      → Succeeds (IsRound n) (packet_block body rest r)
  unfolding packet_block
  packet_block_in body bs l taken =
      let u32_of = u32_at r.swapped_endian body bs in
      Succeeds->>= (order_u32_in r.swapped_endian body bs (omega arith)) (λ interface_id _.
        Succeeds->>= (u32_of 4 (omega arith)) (λ high _.
          Succeeds->>= (u32_of 8 (omega arith)) (λ low _.
            Succeeds->>= (u32_of 12 (omega arith)) (λ captured _.
              Succeeds->>= (u32_of 16 (omega arith)) (λ wire _.
                let behind = length-drop {0} 20 body in
                succeeds (
                  if_cases (IsRound n) (ltb (length body) (captured + 24)) (λ _. (rs, good, taken))
                    (λ long. (
                      rs,
                      good,
                      taken,
                      record {
                        data_IsBytes = All-take _ captured (drop 20 body) (All-drop _ 20 body bs);
                        data_length = length-take captured (drop 20 body) (ground arith);
                      },
                    ))))))))

  pub section_length_in :
      (block_header : List ℕ)
      → IsBytes block_header
      → length block_header ≡ 8
      → length rest + 8 ≤ n
      → Succeeds (IsRound n) (section_length block_header rest r)
  unfolding section_length
  section_length_in block_header hs l taken =
      Succeeds->>= (u32_at r.swapped_endian block_header hs 4 (omega arith)) (λ total _.
        let behind = length-drop {0} (total - 12) rest in
        succeeds (
          if_cases (IsRound n) (ltb total 28 || ltb max_block_length total) (λ _. (rs, good))
            (λ _. (All-drop _ (total - 12) rest rs, tt, omega arith))))
