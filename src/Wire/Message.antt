-- ===== src/Wire/Message.antt =====
-- src/helpers.h: OrderMessage, the datagram around it, and their encodings. The writes of an
-- encoder fill its buffer from the front without a gap, so the buffer is their concatenation.
use mega_feed_handler.Base.{
  ℕ, zero, suc, ◌+◌, ◌^◌, ◌<◌, ◌≡◌, Option, none, some, List, [], ◌∷◌, ◌++◌, ◌>>=◌, get_elem?,
  length, take, drop, ltb, ◌==◌, not, if◌then◌else◌,
}
use mega_feed_handler.Base.Bits.{u8}
use mega_feed_handler.Base.Int.{ℤ, IsInt64, to_u64, to_i64}
use mega_feed_handler.Wire.Bytes.{put_u16, put_u32, put_u64, get_u16, get_u32, get_u64}

-- `char` and the integers are their bit patterns, but for the signed price.
pub record OrderMessage : Type 0 where
  pub type : ℕ
  pub symbol : List ℕ
  pub price : ℤ
  pub size : ℕ
  pub timestamp : ℕ

abbrev pub order_message_size : ℕ
order_message_size = 29

abbrev pub hdr_bytes : ℕ
hdr_bytes = 16

-- "MFHD"
abbrev pub magic : ℕ
magic = 0x4d464844

-- `memcpy` out of a buffer.
unfoldable pub copy_bytes : ℕ → List ℕ → Option (List ℕ)
copy_bytes zero bytes = some []
copy_bytes (suc n) [] = none
copy_bytes (suc n) (b ∷ bytes) = do rest ← copy_bytes n bytes; some (b ∷ rest)

unfoldable pub message_encode : OrderMessage → List ℕ
message_encode m =
    u8 m.type ∷ take 8 m.symbol
    ++ (put_u64 (to_u64 m.price) ++ (put_u32 m.size ++ put_u64 m.timestamp))

unfoldable pub message_decode : List ℕ → Option OrderMessage
unfolding copy_bytes
message_decode bytes = do
  type ← get_elem? bytes 0
  symbol ← copy_bytes 8 (drop 1 bytes)
  price ← get_u64 (drop 9 bytes)
  size ← get_u32 (drop 17 bytes)
  timestamp ← get_u64 (drop 21 bytes)
  some (record {
    type = type;
    symbol = symbol ++ 0 ∷ [];
    price = to_i64 price;
    size = size;
    timestamp = timestamp;
  })

unfoldable pub dgram_encode : ℕ → ℕ → List ℕ → List ℕ
dgram_encode bucket sequence msg_bytes =
    put_u32 magic
    ++ (put_u16 bucket
        ++ (put_u64 sequence ++ (put_u16 order_message_size ++ take order_message_size msg_bytes)))

pub record Dgram : Type 0 where
  pub bucket : ℕ
  pub sequence : ℕ
  pub message : OrderMessage

-- `none` is a read out of range, `some none` the answer `false`. What is stored into `out` before
-- a `false` is left out: no caller reads it.
unfoldable pub dgram_fields : List ℕ → Option (Option Dgram)
dgram_fields bytes = do
  bucket ← get_u16 (drop 4 bytes)
  sequence ← get_u64 (drop 6 bytes)
  size ← get_u16 (drop 14 bytes)
  if not (size == order_message_size)
      then some none
      else (message_decode (drop hdr_bytes bytes) >>= λ message.
          some (some (record { bucket = bucket; sequence = sequence; message = message })))

unfoldable pub dgram_decode : List ℕ → ℕ → Option (Option Dgram)
unfolding dgram_fields
dgram_decode bytes length =
    if ltb length (hdr_bytes + order_message_size)
    then some none
    else (get_u32 bytes >>= λ word. if not (word == magic) then some none else dgram_fields bytes)

-- The messages that the wire can carry: a symbol of eight bytes and its terminator, and numbers
-- within their widths.
pub record IsWire (m : OrderMessage) : Type 0 where
  pub type_byte : m.type < 2 ^ 8
  pub symbol_terminated : take 8 m.symbol ++ 0 ∷ [] ≡ m.symbol
  pub symbol_length : length (take 8 m.symbol) ≡ 8
  pub price_int64 : IsInt64 m.price
  pub size_u32 : m.size < 2 ^ 32
  pub timestamp_u64 : m.timestamp < 2 ^ 64
