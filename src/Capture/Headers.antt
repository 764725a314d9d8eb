-- ===== src/Capture/Headers.antt =====
-- src/pcapng_reader.h: one round of the loop of `read_until_next_packet_block` reads within its
-- block, unless that is a packet block with no room for its own fields.
use mega_feed_handler.Base.{
  ℕ, ◌+◌, ◌-◌, ◌<◌, ◌≤◌, ◌≡◌, ◌⊎◌, inl, inr, ap, sym, ◌∙◌, true, false, ◌||◌, some, List, arith,
  ltb, ◌==◌, length, take, drop, All, All-take, All-drop, length-take, length-drop, if_cases,
  Bool-cases, Succeeds, succeeds, Succeeds->>=,
}
use mega_feed_handler.Wire.Bytes.{IsBytes, get_u32, get_u32_in}
use mega_feed_handler.Capture.Order.{order_u32, order_u32_in, u32_at}
use mega_feed_handler.Capture.Defs.{PcapngReader, max_block_length, section_kind}
use mega_feed_handler.Capture.Blocks.{section_block, typed_block, other_block, read_block}
use mega_feed_handler.Capture.Interfaces.{IsInterface}
use mega_feed_handler.Capture.Reads.{
  IsRound, fread_cases, interface_block_in, packet_block_in, section_length_in,
}

-- The header of a packet block whose total length has no room for the packet block's own fields,
-- at the front of a file that has the whole block.
pub record ShortPacketBlock (bytes : List ℕ) (r : PcapngReader) : Type 0 where
  pub total_length : ℕ
  pub is_packet_block : order_u32 r.swapped_endian (take 8 bytes) ≡ some 6
  pub has_total_length : order_u32 r.swapped_endian (drop 4 (take 8 bytes)) ≡ some total_length
  pub has_length : 12 ≤ total_length
  pub is_short : total_length < 28
  pub is_whole : total_length ≤ length bytes

pub first_u32 :
    (n : ℕ) (bytes : List ℕ)
    → IsBytes bytes
    → n ≤ length bytes
    → 4 ≤ n
    → Succeeds (λ _. Unit {0}) (get_u32 (take n bytes))
first_u32 n bytes bs l four =
    let (v, read, _, _) =
      get_u32_in (take n bytes) (All-take _ n bytes bs) (omega (arith, length-take n bytes l)) in
    (v, read, tt)

module _ (bytes : List ℕ) (bs : IsBytes bytes) (r : PcapngReader)
    (good : All IsInterface r.interfaces) (whole : 8 ≤ length bytes) where
  abbrev header : List ℕ
  header = take 8 bytes

  header-IsBytes : IsBytes header
  header-IsBytes = All-take _ 8 bytes bs

  length-header : length header ≡ 8
  length-header = length-take 8 bytes whole

  abbrev behind : List ℕ
  behind = drop 8 bytes

  behind-IsBytes : IsBytes behind
  behind-IsBytes = All-drop _ 8 bytes bs

  length-behind : length behind + 8 ≡ length bytes
  length-behind = omega (arith, length-drop {0} 8 bytes)

  section_block_in : Succeeds (IsRound (length bytes)) (section_block header behind r)
  unfolding section_block
  section_block_in = elim (fread_cases 4 behind) [
    | inl short ↦ rw (short, section_block) (succeeds (tt, good))
    | inr (long, l) ↦
        let rest = drop 4 behind in
        let rest-IsBytes = All-drop _ 4 behind behind-IsBytes in
        let rest_length = length-drop {0} 4 behind in
        let sizes = length-behind in
        rw (long, section_block)
          (Succeeds->>= (first_u32 4 behind behind-IsBytes l (omega arith)) (λ magic _.
            if_cases (Succeeds (IsRound (length bytes))) (magic == 0x1a2b3c4d)
              (λ _.
                section_length_in (length bytes) rest rest-IsBytes
                  (record r { swapped_endian = false }) good header header-IsBytes length-header
                  (omega arith))
              (λ _.
                if_cases (Succeeds (IsRound (length bytes))) (magic == 0x4d3c2b1a)
                  (λ _.
                    section_length_in (length bytes) rest rest-IsBytes
                      (record r { swapped_endian = true }) good header header-IsBytes length-header
                      (omega arith))
                  (λ _. succeeds (rest-IsBytes, good)))))
  ]

  -- Both branches of a test on the type, with what is left of the file.
  typed_block_in :
      (block_type remaining : ℕ)
      → order_u32 r.swapped_endian header ≡ some block_type
      → order_u32 r.swapped_endian (drop 4 header) ≡ some (remaining + 8)
      → 4 ≤ remaining
      → ShortPacketBlock bytes r
        ⊎ Succeeds (IsRound (length bytes)) (typed_block block_type remaining behind r)
  unfolding typed_block
  typed_block_in block_type remaining is_type is_length l =
      elim (Bool-cases (block_type == 1 || block_type == 6)) [
        | inl read ↦ elim (fread_cases remaining behind) [
          | inl short ↦ inr (rw (read, short, typed_block) (succeeds (tt, good)))
          | inr (long, fits) ↦
              let body-IsBytes = All-take _ remaining behind behind-IsBytes in
              let rest-IsBytes = All-drop _ remaining behind behind-IsBytes in
              let body_length = length-take remaining behind fits in
              let rest_length = length-drop {0} remaining behind in
              let sizes = length-behind in
              elim (Bool-cases (block_type == 1)) [
                | inl interface ↦ inr (
                    rw (read, long, interface, typed_block)
                      (interface_block_in (length bytes) (drop remaining behind) rest-IsBytes r good
                        (take remaining behind) body-IsBytes (omega arith) (omega arith)))
                | inr packet ↦ elim (Bool-cases (ltb remaining 20)) [
                  | inl small ↦ inl (record {
                    total_length = remaining + 8;
                    is_packet_block = is_type ∙ ap some (ground arith);
                    has_total_length = is_length;
                    has_length = omega arith;
                    is_short = ground arith;
                    is_whole = omega arith;
                  })
                  | inr large ↦ inr (
                      rw (read, long, packet, typed_block)
                        (packet_block_in (length bytes) (drop remaining behind) rest-IsBytes r good
                          (take remaining behind) body-IsBytes (ground arith) (omega arith)))
                ]
              ]
        ]
        | inr other ↦ inr (
            rw (other, typed_block)
              (succeeds (
                All-drop _ remaining behind behind-IsBytes,
                good,
                omega (arith, length-behind, length-drop {0} remaining behind),
              )))
      ]

  other_block_in :
      ShortPacketBlock bytes r ⊎ Succeeds (IsRound (length bytes)) (other_block header behind r)
  unfolding other_block
  other_block_in =
      let (block_type, is_type, _) =
        order_u32_in r.swapped_endian header header-IsBytes (omega (arith, length-header)) in
      let (total, is_length, _) =
        u32_at r.swapped_endian header header-IsBytes 4 (omega (arith, length-header)) in
      elim (Bool-cases (ltb total 12 || ltb max_block_length total)) [
        | inl bad ↦
            inr (rw (is_type, is_length, bad, other_block) (succeeds (behind-IsBytes, good)))
        | inr fine ↦
            let size : total - 8 + 8 ≡ total = ground arith in
            rw (is_type, is_length, fine, other_block)
              (typed_block_in block_type (total - 8) is_type (is_length ∙ ap some (sym size))
                (ground arith))
      ]

-- A round either meets a short packet block, or it reads within its block.
pub read_block_in :
    (bytes : List ℕ)
    → IsBytes bytes
    → (r : PcapngReader) → All IsInterface r.interfaces
    → ShortPacketBlock bytes r ⊎ Succeeds (IsRound (length bytes)) (read_block bytes r)
unfolding read_block
read_block_in bytes bs r good = elim (fread_cases 8 bytes) [
  | inl short ↦ inr (rw (short, read_block) (succeeds (tt, good)))
  | inr (long, whole) ↦
      let (kind, is_kind, _) = first_u32 8 bytes bs whole (omega arith) in
      elim (Bool-cases (kind == section_kind)) [
        | inl section ↦
            inr (rw (long, is_kind, section, read_block) (section_block_in bytes bs r good whole))
        | inr other ↦ rw (long, is_kind, other, read_block) (other_block_in bytes bs r good whole)
      ]
]
