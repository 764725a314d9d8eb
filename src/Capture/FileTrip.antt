-- ===== src/Capture/FileTrip.antt =====
-- src/pcapng_reader.h: the blocks of a written capture are read back, in either byte order.
use mathlib.Core.List.{append_assoc, append-nil}
use mega_feed_handler.Base.{
  ℕ, ◌+◌, ◌-◌, ◌*◌, ◌^◌, ◌<◌, ◌≤◌, ◌≡◌, refl, ap, sym, ◌∙◌, Bool, true, false, ◌||◌, some, List, [],
  ◌++◌, arith, ltb, ◌==◌, ◌>>=◌, if◌then◌else◌, length, take, drop, drop_add, drop-append,
  take-append, length-append, le→ltb,
}
use mega_feed_handler.Base.Bits.{◌>>>◌, u8}
use mega_feed_handler.Wire.Bytes.{put_u16, put_u32, get_u32, get_u32-put_u32, get_u32_sum}
use mega_feed_handler.Capture.Order.{
  order_u32, store_u16, store_u32, swap_u32, order_u32-store_u32, length-store_u32,
}
use mega_feed_handler.Capture.Defs.{PcapngReader, max_block_length, section_kind, fread}
use mega_feed_handler.Capture.Blocks.{
  skip, section_length, section_block, typed_block, other_block, read_block,
}
use mega_feed_handler.Capture.Encode.{store_section, store_block}

pub fread-append : (n : ℕ) (xs ys : List ℕ) → length xs ≡ n → fread n (xs ++ ys) ≡ some (xs, ys)
unfolding fread
fread-append n xs ys h =
    let long = le→ltb (length (xs ++ ys)) n (omega (arith, h, length-append {0} xs ys)) in
    rw (long, sym h, take-append xs ys, drop-append xs ys) refl

-- A round, with the block header split off the file, and the magic of a section behind it.
read_block_split :
    (header behind : List ℕ) (r : PcapngReader)
    → length header ≡ 8
    → read_block (header ++ behind) r ≡ (
        get_u32 header >>= λ kind.
        (if kind == section_kind
          then section_block header behind r
          else other_block header behind r))
unfolding read_block
read_block_split header behind r h = rw (fread-append 8 header behind h, read_block) refl

section_block_split :
    (header magic behind : List ℕ) (r : PcapngReader) (swapped : Bool)
    → length magic ≡ 4
    → get_u32 magic ≡ some (if swapped then 0x4d3c2b1a else 0x1a2b3c4d)
    → section_block header (magic ++ behind) r
      ≡ section_length header behind (record r { swapped_endian = swapped })
unfolding section_block
section_block_split header magic behind r false h e =
    rw (fread-append 4 magic behind h, e, section_block) refl
section_block_split header magic behind r true h e =
    rw (fread-append 4 magic behind h, e, section_block) refl

-- A section header is skipped, and sets the byte order.
pub read_block-store_section :
    (swapped : Bool) (rest : List ℕ) (r : PcapngReader)
    → read_block (store_section swapped ++ rest) r
      ≡ some (skip rest (record r { swapped_endian = swapped; interfaces = [] }))
unfolding section_length order_u32 store_u32 store_u16 put_u32 put_u16 get_u32 swap_u32
read_block-store_section false rest r =
    let stored = store_section false in
    read_block_split (take 8 stored) (drop 8 stored ++ rest) r refl
    ∙ section_block_split (take 8 stored) (take 4 (drop 8 stored)) (drop 12 stored ++ rest) r false
        refl refl
read_block-store_section true rest r =
    let stored = store_section true in
    read_block_split (take 8 stored) (drop 8 stored ++ rest) r refl
    ∙ section_block_split (take 8 stored) (take 4 (drop 8 stored)) (drop 12 stored ++ rest) r true
        refl refl

-- The type of a block, as the reader first looks at it, is not that of a section header.
small_kind :
    (swapped : Bool) (t : ℕ) (rest : List ℕ)
    → t < 2 ^ 8
    → (kind : ℕ) × (get_u32 (store_u32 swapped t ++ rest) ≡ some kind)
      × ((kind == section_kind) ≡ false)
unfolding store_u32
small_kind false t rest h = (t, get_u32-put_u32 t rest (omega arith), ground arith)
small_kind true t rest h = (
  u8 (t >>> 24) + u8 (t >>> 16) * 2 ^ 8 + u8 (t >>> 8) * 2 ^ 16 + u8 t * 2 ^ 24,
  get_u32_sum (u8 (t >>> 24)) (u8 (t >>> 16)) (u8 (t >>> 8)) (u8 t) rest (omega arith) (omega arith)
      (omega arith),
  ground arith,
)

length-pair : (swapped : Bool) (a b : ℕ) → length (store_u32 swapped a ++ store_u32 swapped b) ≡ 8
length-pair swapped a b = omega (
  arith,
  length-append {0} (store_u32 swapped a) (store_u32 swapped b),
  length-store_u32 swapped a,
  length-store_u32 swapped b,
)

pub drop-store_u32 :
    (swapped : Bool) (v : ℕ) (rest : List ℕ) → drop 4 (store_u32 swapped v ++ rest) ≡ rest
drop-store_u32 swapped v rest = drop_add 4 0 (store_u32 swapped v) rest (length-store_u32 swapped v)

other_block-store_u32 :
    (t n : ℕ) (behind : List ℕ) (r : PcapngReader)
    → t < 2 ^ 8
    → 4 ≤ n
    → n + 8 ≤ 2 ^ 24
    → other_block (store_u32 r.swapped_endian t ++ store_u32 r.swapped_endian (n + 8)) behind r
      ≡ typed_block t n behind r
unfolding other_block
other_block-store_u32 t n behind r small l u =
    let swapped = r.swapped_endian in
    let size_bytes = store_u32 swapped (n + 8) in
    let size : order_u32 swapped (drop 4 (store_u32 swapped t ++ size_bytes)) ≡ some (n + 8) =
      ap (order_u32 swapped) (drop-store_u32 swapped t size_bytes ∙ sym (append-nil size_bytes))
      ∙ order_u32-store_u32 swapped (n + 8) [] (omega arith) in
    let proper : (ltb (n + 8) 12 || ltb max_block_length (n + 8)) ≡ false = ground arith in
    let own : n + 8 - 8 ≡ n = omega arith in
    rw (order_u32-store_u32 swapped t size_bytes (omega arith), size, proper, own) refl

-- A stored block of another type is read as that type.
pub read_block-store_block :
    (t : ℕ) (body rest : List ℕ) (r : PcapngReader)
    → t < 2 ^ 8
    → 4 ≤ length body
    → length body + 8 ≤ 2 ^ 24
    → read_block (store_block r.swapped_endian t body ++ rest) r
      ≡ typed_block t (length body) (body ++ rest) r
read_block-store_block t body rest r small l u =
    let swapped = r.swapped_endian in
    let kind_bytes = store_u32 swapped t in
    let size_bytes = store_u32 swapped (length body + 8) in
    let (kind, is_kind, not_section) = small_kind swapped t size_bytes small in
    let split : store_block swapped t body ++ rest ≡ (kind_bytes ++ size_bytes) ++ (body ++ rest) =
      simp (append_assoc) in
    rw split (
      read_block_split (kind_bytes ++ size_bytes) (body ++ rest) r
        (length-pair swapped t (length body + 8))
      ∙ rw (is_kind, not_section)
          (other_block-store_u32 t (length body) (body ++ rest) r small l u))
