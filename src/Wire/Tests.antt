-- ===== src/Wire/Tests.antt =====
-- src/helpers.h: concrete messages, datagrams and hashes.
use mega_feed_handler.Base.{ℕ, ◌≡◌, refl, List, [], ◌∷◌, Option, some, arith}
use mega_feed_handler.Base.Int.{negsuc}
use mega_feed_handler.Wire.Bytes.{IsBytes}
use mega_feed_handler.Wire.Message.{
  OrderMessage, Dgram, IsWire, message_encode, dgram_encode, dgram_decode,
}
use mega_feed_handler.Wire.RoundTrip.{dgram_decode-encode}
use mega_feed_handler.Wire.Accept.{Accepted, dgram_decode_in}

-- A sell order below zero, whose symbol fills its field.
abbrev sell : OrderMessage
sell = record {
  type = b'S';
  symbol = 90 ∷ 86 ∷ 90 ∷ 90 ∷ 84 ∷ 65 ∷ 66 ∷ 67 ∷ 0 ∷ [];
  price = negsuc 4;
  size = 300;
  timestamp = 77;
}

sell-IsWire : IsWire sell
sell-IsWire = record {
  type_byte = omega arith;
  symbol_terminated = refl;
  symbol_length = refl;
  price_int64 = (omega arith, omega arith);
  size_u32 = omega arith;
  timestamp_u64 = omega arith;
}

dgram_decode-encode_example :
    dgram_decode (dgram_encode 3 9 (message_encode sell)) 45
    ≡ some (some (record { bucket = 3; sequence = 9; message = sell }))
dgram_decode-encode_example = dgram_decode-encode 3 9 sell (omega arith) (omega arith) sell-IsWire

-- The bytes of a message, of no known type.
abbrev raw : List ℕ
raw =
    200 ∷ 1 ∷ 2 ∷ 3 ∷ 4 ∷ 5 ∷ 6 ∷ 7 ∷ 8 ∷ 255 ∷ 255 ∷ 255 ∷ 255 ∷ 255 ∷ 255 ∷ 255 ∷ 255 ∷ 9 ∷ 0 ∷ 0
    ∷ 0 ∷ 1 ∷ 0 ∷ 0 ∷ 0 ∷ 0 ∷ 0 ∷ 0 ∷ 0 ∷ []

raw-IsBytes : IsBytes raw
raw-IsBytes = ground arith

dgram_decode_in_example : (r : Option Dgram) × (dgram_decode raw 29 ≡ some r) × Accepted raw 29 r
dgram_decode_in_example = dgram_decode_in raw 29 raw-IsBytes (omega arith)
