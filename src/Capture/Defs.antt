-- ===== src/Capture/Defs.antt =====
-- src/pcapng_reader.h: the state of the reader, reads of its file, and `open`.
use mega_feed_handler.Base.{
  ℕ, ◌^◌, Bool, false, ◌||◌, Option, none, some, List, [], ltb, ◌==◌, length, take, drop,
  if◌then◌else◌, ◌>>=◌,
}
use mega_feed_handler.Wire.Bytes.{get_u32}

pub record InterfaceInfo : Type 0 where
  pub link_type : ℕ
  pub ns_multiplier : ℕ
  pub ns_divisor : ℕ

-- `file` holds the bytes of the open file from its position on.
pub record PcapngReader : Type 0 where
  pub file : Option (List ℕ)
  pub swapped_endian : Bool
  pub warned_truncated : Bool
  pub warned_link_type : Bool
  pub interfaces : List InterfaceInfo

abbrev pub max_block_length : ℕ
max_block_length = 2 ^ 24

abbrev pub section_kind : ℕ
section_kind = 0x0a0d0d0a

-- The values that `read_until_next_packet_block` hands back.
pub record Packet : Type 0 where
  pub packet_data : List ℕ
  pub captured_length : ℕ
  pub timestamp_ns : ℕ
  pub wire_length : ℕ
  pub packet_link_type : ℕ

-- `fread` of `n` bytes: those and the bytes behind them, or `none` when the file ends first.
unfoldable pub fread : ℕ → List ℕ → Option (List ℕ × List ℕ)
fread n bytes = if ltb (length bytes) n then none else some (take n bytes, drop n bytes)

-- Why `open` returns false: each has a message of its own.
pub data OpenError : Type 0 where
  no_file : OpenError
  too_short : OpenError
  classic_pcap : OpenError
  not_pcapng : OpenError

unfoldable pub magic_error : ℕ → OpenError
magic_error magic =
    if magic == 0xa1b2c3d4 || magic == 0xd4c3b2a1 || magic == 0xa1b23c4d || magic == 0x4d3cb2a1
    then classic_pcap
    else not_pcapng

-- `open`, on what `fopen` finds under the name: the error, `none` of it when it returns true, and
-- the reader behind it. The outer `none` is a read out of range.
unfoldable pub open_file : Option (List ℕ) → PcapngReader → Option (Option OpenError × PcapngReader)
open_file none r = some (some no_file, record r { file = none })
open_file (some bytes) r = elim (fread 4 bytes) [
  | none ↦ some (some too_short, record r { file = none })
  | some (magic_bytes, _) ↦ get_u32 magic_bytes >>= λ magic.
      (if magic == section_kind
        then some (none, record r { file = some bytes })
        else some (some (magic_error magic), record r { file = none }))
]

-- A reader as it is constructed.
abbrev pub new_reader : PcapngReader
new_reader = record {
  file = none;
  swapped_endian = false;
  warned_truncated = false;
  warned_link_type = false;
  interfaces = [];
}
