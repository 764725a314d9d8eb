-- ===== src/Capture/Total.antt =====
-- src/pcapng_reader.h: the loops of the reader end, whatever the file is, and read out of range
-- only at a short packet block.
use mega_feed_handler.Base.{
  ℕ, zero, suc, ◌+◌, ◌<◌, ◌≤◌, ◌≡◌, refl, ◌∙◌, inl, inr, ◌⊎◌, Option, none, some, List, arith,
  length, All,
}
use mega_feed_handler.Wire.Bytes.{IsBytes}
use mega_feed_handler.Capture.Defs.{PcapngReader, Packet}
use mega_feed_handler.Capture.Blocks.{
  stop, skip, deliver, read_block, Reading, ended, found, fault, out_of_fuel, read_blocks,
  read_until_next_packet_block,
}
use mega_feed_handler.Capture.Frames.{packet_payload, find_packet, bytes_left, next_packet}
use mega_feed_handler.Capture.Interfaces.{IsInterface}
use mega_feed_handler.Capture.Reads.{IsPacket}
use mega_feed_handler.Capture.Headers.{ShortPacketBlock, read_block_in}
use mega_feed_handler.Capture.Short.{short-none}
use mega_feed_handler.Capture.Payload.{packet_payload_cases}

abbrev pub IsFile : Option (List ℕ) → Type 0
IsFile none = Unit {0}
IsFile (some bytes) = IsBytes bytes

-- Bytes are bytes, and every interface has a divisor.
pub record IsReader (r : PcapngReader) : Type 0 where
  pub file_IsFile : IsFile r.file
  pub interfaces_good : All IsInterface r.interfaces

-- The blocks of a file in the order they are read: a place and the reader there.
pub data Reached (start : List ℕ) (first : PcapngReader) : List ℕ → PcapngReader → Type 0 where
  here : Reached start first start first
  skipped :
      {bytes rest : List ℕ} {r r' : PcapngReader}
      → Reached start first bytes r
      → read_block bytes r ≡ some (skip rest r')
      → Reached start first rest r'
  refused :
      {bytes rest : List ℕ} {r r' r'' : PcapngReader} {p : Packet}
      → Reached start first bytes r
      → read_block bytes r ≡ some (deliver p rest r')
      → packet_payload p (record r' { file = some rest }) ≡ some (none, r'')
      → Reached start first rest r''

-- A fault of the reading: a short packet block that the reading reaches.
unfoldable pub MeetsShortBlock : List ℕ → PcapngReader → Type 0
MeetsShortBlock start first =
    (bytes : List ℕ) × (r : PcapngReader) × Reached start first bytes r × ShortPacketBlock bytes r

module _ (start : List ℕ) (first : PcapngReader) where
  -- A packet, and where the reading goes on when its frame is refused.
  record IsFound (n : ℕ) (p : Packet) (r : PcapngReader) : Type 0 where
    rest : List ℕ
    file_rest : r.file ≡ some rest
    rest_IsBytes : IsBytes rest
    taken : length rest + 8 ≤ n
    good : All IsInterface r.interfaces
    packet : IsPacket p
    onward :
        (r' : PcapngReader) → packet_payload p r ≡ some (none, r') → Reached start first rest r'

  IsBlocksEnd : ℕ → Reading Packet → Type 0
  IsBlocksEnd n (ended r) = IsReader r
  IsBlocksEnd n (found p r) = IsFound n p r
  IsBlocksEnd n fault = MeetsShortBlock start first
  IsBlocksEnd n out_of_fuel = ⊥

  read_blocks_in :
      (fuel n : ℕ) (bytes : List ℕ)
      → IsBytes bytes
      → (r : PcapngReader) → All IsInterface r.interfaces
      → Reached start first bytes r
      → length bytes < fuel
      → length bytes ≤ n
      → IsBlocksEnd n (read_blocks fuel bytes r)
  unfolding read_blocks IsBlocksEnd MeetsShortBlock
  read_blocks_in zero n bytes bs r good reached enough l = absurd (omega arith)
  read_blocks_in (suc fuel) n bytes bs r good reached enough l =
      elim (read_block_in bytes bs r good) [
        | inl short ↦ rw (short-none bytes bs r short, IsBlocksEnd) (bytes, r, reached, short)
        | inr (stop rest r', e, fine) ↦
            rw (e, IsBlocksEnd) (record { file_IsFile = fine.0; interfaces_good = fine.1 })
        | inr (skip rest r', e, fine) ↦
            rw (e, IsBlocksEnd)
              (read_blocks_in fuel n rest fine.0 r' fine.1 (skipped reached e) (omega arith)
                (omega arith))
        | inr (deliver p rest r', e, fine) ↦
            rw (e, IsBlocksEnd)
              (record {
                rest = rest;
                file_rest = refl;
                rest_IsBytes = fine.0;
                taken = omega arith;
                good = fine.1;
                packet = fine.3;
                onward = λ r'' h. refused reached e h;
              })
      ]

  -- The three ways a search for a packet can end.
  IsBlocksEnd-cases :
      (n : ℕ) (q : Reading Packet)
      → IsBlocksEnd n q
      → ((r : PcapngReader) × (q ≡ ended r) × IsReader r)
        ⊎ (((p : Packet) × (r : PcapngReader) × (q ≡ found p r) × IsFound n p r)
            ⊎ ((q ≡ fault) × MeetsShortBlock start first))
  unfolding IsBlocksEnd
  IsBlocksEnd-cases n (ended r) h = inl (r, refl, h)
  IsBlocksEnd-cases n (found p r) h = inr (inl (p, r, refl, h))
  IsBlocksEnd-cases n fault h = inr (inr (refl, h))
  IsBlocksEnd-cases n out_of_fuel h = absurd h

  -- A payload was found, or the file has ended, or a short packet block was met.
  unfoldable pub IsEnd : ℕ → Reading (List ℕ × ℕ) → Type 0
  IsEnd n (ended r) = IsReader r
  IsEnd n (found (payload, timestamp) r) = IsBytes payload × IsReader r × (bytes_left r + 8 ≤ n)
  IsEnd n fault = MeetsShortBlock start first
  IsEnd n out_of_fuel = ⊥

  find_packet_in :
      (fuel n : ℕ) (bytes : List ℕ)
      → IsBytes bytes
      → (r : PcapngReader) → r.file ≡ some bytes
      → All IsInterface r.interfaces
      → Reached start first bytes r
      → length bytes < fuel
      → length bytes ≤ n
      → IsEnd n (find_packet fuel r)
  unfolding find_packet read_until_next_packet_block IsEnd bytes_left
  find_packet_in zero n bytes bs r is_file good reached enough l = absurd (omega arith)
  find_packet_in (suc fuel) n bytes bs r is_file good reached enough l =
      let blocks =
        read_blocks_in (suc (length bytes)) (length bytes) bytes bs r good reached (omega arith)
          (omega arith) in
      let blocks_read : read_until_next_packet_block r ≡ read_blocks (suc (length bytes)) bytes r =
        rw is_file refl in
      elim (IsBlocksEnd-cases (length bytes) (read_blocks (suc (length bytes)) bytes r) blocks) [
        | inl (r', e, fine) ↦ rw (blocks_read ∙ e, IsEnd) fine
        | inr (inl (p, r', e, fine)) ↦
            let into = blocks_read ∙ e in
            elim (packet_payload_cases p fine.packet r') [
              | inl (r'', e', same, same') ↦
                  rw (into, e', IsEnd)
                    (find_packet_in fuel n fine.rest fine.rest_IsBytes r'' (same ∙ fine.file_rest)
                      (rw same' fine.good) (fine.onward r'' e') (omega (arith, fine.taken))
                      (omega (arith, fine.taken)))
              | inr (payload, r'', e', same, same', payload-IsBytes) ↦
                  rw (into, e', IsEnd)
                    ((
                      payload-IsBytes,
                      record {
                        file_IsFile = rw (same ∙ fine.file_rest) fine.rest_IsBytes;
                        interfaces_good = rw same' fine.good;
                      },
                      rw (same ∙ fine.file_rest) (omega (arith, fine.taken)),
                    ))
            ]
        | inr (inr (e, short)) ↦ rw (blocks_read ∙ e, IsEnd) short
      ]

pub bytes_left_lem :
    (r : PcapngReader) (bytes : List ℕ) → r.file ≡ some bytes → bytes_left r ≡ length bytes
unfolding bytes_left
bytes_left_lem r bytes h = rw h refl

-- `next_packet` always ends: with `false`, with a payload and less of the file to read, or with a
-- read out of range, and that only at a short packet block which it reaches.
pub next_packet_in :
    (r : PcapngReader) (bytes : List ℕ)
    → r.file ≡ some bytes
    → IsReader r
    → IsEnd bytes r (length bytes) (next_packet r)
unfolding next_packet
next_packet_in r bytes is_file good = rw (bytes_left_lem r bytes is_file) (
    find_packet_in bytes r (suc (length bytes)) (length bytes) bytes
      (rw is_file at good.file_IsFile) r is_file good.interfaces_good here (omega arith)
      (omega arith))
