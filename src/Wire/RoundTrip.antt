-- ===== src/Wire/RoundTrip.antt =====
-- src/helpers.h: decoding what was encoded.
use mathlib.Core.List.{append_assoc, append-nil}
use mega_feed_handler.Base.{
  ℕ, zero, suc, ◌^◌, ◌<◌, ◌≤◌, ◌≡◌, ◌∙◌, refl, ap, some, List, [], ◌∷◌, ◌++◌, arith, length, take,
  drop, drop_add, le→ltb, take_all, length-append,
}
use mega_feed_handler.Base.Bits.{u8}
use mega_feed_handler.Base.Int.{to_u64, to_i64, to_u64-lt, to_i64-to_u64}
use mega_feed_handler.Wire.Bytes.{
  put_u16, put_u32, put_u64, get_u16, get_u32, get_u64, get_u16-put_u16, get_u32-put_u32,
  get_u64-put_u64, length-put_u32, length-put_u64,
}
use mega_feed_handler.Wire.Message.{
  OrderMessage, IsWire, copy_bytes, message_encode, message_decode, dgram_encode, dgram_decode,
  order_message_size, magic,
}

copy_bytes-append : (n : ℕ) (xs ys : List ℕ) → length xs ≡ n → copy_bytes n (xs ++ ys) ≡ some xs
unfolding copy_bytes
copy_bytes-append zero [] ys h = refl
copy_bytes-append zero (x ∷ xs) ys h = absurd (omega arith)
copy_bytes-append (suc n) [] ys h = absurd (omega arith)
copy_bytes-append (suc n) (x ∷ xs) ys h = rw (copy_bytes-append n xs ys (omega arith))

pub length-message_encode :
    (m : OrderMessage) → length (take 8 m.symbol) ≡ 8 → length (message_encode m) ≡ 29
unfolding message_encode
length-message_encode m h =
    let p = put_u64 (to_u64 m.price) in
    let z = put_u32 m.size in
    let t = put_u64 m.timestamp in
    omega (
      arith,
      length-append (take 8 m.symbol) (p ++ (z ++ t)),
      length-append p (z ++ t),
      length-append z t,
      length-put_u64 (to_u64 m.price),
      length-put_u32 m.size,
      length-put_u64 m.timestamp,
    )

abbrev layout : ℕ → List ℕ → List ℕ → List ℕ → List ℕ → List ℕ → List ℕ
layout t s p z e rest = t ∷ s ++ (p ++ (z ++ (e ++ rest)))

-- The five reads of `message_decode`, for a symbol `s` of eight bytes.
module _ (t : ℕ) (s p z e : List ℕ) (rest : List ℕ) (hs : length s ≡ 8) (hp : length p ≡ 8)
    (hz : length z ≡ 4) where
  drop_price : drop 9 (layout t s p z e rest) ≡ p ++ (z ++ (e ++ rest))
  drop_price = drop_add 8 0 s _ hs

  drop_size : drop 17 (layout t s p z e rest) ≡ z ++ (e ++ rest)
  drop_size = rw (drop_add 8 8 s _ hs, drop_add 8 0 p _ hp)

  drop_timestamp : drop 21 (layout t s p z e rest) ≡ e ++ rest
  drop_timestamp = rw (drop_add 8 12 s _ hs, drop_add 8 4 p _ hp, drop_add 4 0 z _ hz)

  message_decode-layout :
      (price size timestamp : ℕ)
      → get_u64 (p ++ (z ++ (e ++ rest))) ≡ some price
      → get_u32 (z ++ (e ++ rest)) ≡ some size
      → get_u64 (e ++ rest) ≡ some timestamp
      → message_decode (layout t s p z e rest)
        ≡ some (record {
          type = t;
          symbol = s ++ 0 ∷ [];
          price = to_i64 price;
          size = size;
          timestamp = timestamp;
        })
  unfolding message_decode
  message_decode-layout price size timestamp gp gz ge =
      rw (copy_bytes-append 8 s _ hs, drop_price, gp, drop_size, gz, drop_timestamp, ge)

message_encode-layout :
    (m : OrderMessage) (rest : List ℕ)
    → message_encode m ++ rest
      ≡ layout
          (u8 m.type)
          (take 8 m.symbol)
          (put_u64 (to_u64 m.price))
          (put_u32 m.size)
          (put_u64 m.timestamp)
          rest
unfolding message_encode
message_encode-layout m rest = simp append_assoc

-- A message that the wire can carry decodes from its encoding, whatever follows it in the buffer.
pub message_decode-encode :
    (m : OrderMessage) (rest : List ℕ)
    → IsWire m
    → message_decode (message_encode m ++ rest) ≡ some m
message_decode-encode m rest w = rw (message_encode-layout m rest) (
    message_decode-layout (u8 m.type) (take 8 m.symbol) _ _ _ rest w.symbol_length
      (length-put_u64 _) (length-put_u32 _) (to_u64 m.price) m.size m.timestamp
      (get_u64-put_u64 _ _ (to_u64-lt m.price)) (get_u32-put_u32 _ _ w.size_u32)
      (get_u64-put_u64 _ _ w.timestamp_u64)
    ∙ ap some same)
  where
    same :
        record {
          type = u8 m.type;
          symbol = take 8 m.symbol ++ 0 ∷ [];
          price = to_i64 (to_u64 m.price);
          size = m.size;
          timestamp = m.timestamp;
        }
        ≡ m
    same = ground (arith, to_i64-to_u64 m.price)

-- `dgram_decode` from what its reads give.
dgram_decode_reads :
    (bytes : List ℕ) (len bucket sequence : ℕ) (message : OrderMessage)
    → 45 ≤ len
    → get_u32 bytes ≡ some magic
    → get_u16 (drop 4 bytes) ≡ some bucket
    → get_u64 (drop 6 bytes) ≡ some sequence
    → get_u16 (drop 14 bytes) ≡ some order_message_size
    → message_decode (drop 16 bytes) ≡ some message
    → dgram_decode bytes len
      ≡ some (some (record { bucket = bucket; sequence = sequence; message = message }))
unfolding dgram_decode
dgram_decode_reads bytes len bucket sequence message l gm gb gs gl gp =
    rw (le→ltb len 45 l, gm, gb, gs, gl, gp)

-- The datagram of a message decodes to its bucket, its sequence number and the message.
pub dgram_decode-encode :
    (bucket sequence : ℕ) (m : OrderMessage)
    → bucket < 2 ^ 16
    → sequence < 2 ^ 64
    → IsWire m
    → dgram_decode (dgram_encode bucket sequence (message_encode m)) 45
      ≡ some (some (record { bucket = bucket; sequence = sequence; message = m }))
unfolding dgram_encode put_u16 put_u32 put_u64
dgram_decode-encode bucket sequence m hb hs w =
    dgram_decode_reads (dgram_encode bucket sequence (message_encode m)) 45 bucket sequence m
      (omega arith) (get_u32-put_u32 magic _ (omega arith)) (get_u16-put_u16 bucket _ hb)
      (get_u64-put_u64 sequence _ hs) (get_u16-put_u16 order_message_size _ (omega arith)) payload
  where
    payload : message_decode (take 29 (message_encode m)) ≡ some m
    payload =
        rw
          (
            take_all 29 (message_encode m) (length-message_encode m w.symbol_length),
            ← append-nil (message_encode m),
          )
          (message_decode-encode m [] w)
