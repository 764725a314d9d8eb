-- ===== src/Wire/Accept.antt =====
-- src/helpers.h: the decoders on bytes that anyone may have sent.
use mega_feed_handler.Base.{
  ℕ, zero, suc, ◌^◌, ◌%◌, ◌<◌, ◌≤◌, ◌≡◌, ◌∙◌, refl, ap, some, none, Option, List, [], ◌∷◌, ◌++◌,
  arith, length, take, drop, take_all, take-append_of_length, take_add, drop-drop, All-drop,
  length-take, length-drop, inl, inr, ◌==◌, ltb, ltb→ge, Bool-cases, ==_iff,
}
use mega_feed_handler.Base.Int.{to_i64, to_i64-IsInt64, to_u64-to_i64}
use mega_feed_handler.Wire.Bytes.{
  put_u16, put_u32, put_u64, get_u16_in, get_u32_in, get_u64_in, IsBytes,
}
use mega_feed_handler.Wire.Message.{
  OrderMessage, Dgram, IsWire, copy_bytes, message_encode, message_decode, dgram_encode,
  dgram_decode, order_message_size, magic,
}

copy_bytes_in : (n : ℕ) (xs : List ℕ) → n ≤ length xs → copy_bytes n xs ≡ some (take n xs)
unfolding copy_bytes
copy_bytes_in zero xs h = refl
copy_bytes_in (suc n) [] h = absurd (omega arith)
copy_bytes_in (suc n) (x ∷ xs) h = rw (copy_bytes_in n xs (omega arith))

-- The four parts of 28 bytes.
take_parts :
    (r : List ℕ)
    → take 28 r ≡ take 8 r ++ (take 8 (drop 8 r) ++ (take 4 (drop 16 r) ++ take 8 (drop 20 r)))
take_parts r = rw (
  take_add 8 20 r,
  take_add 8 12 (drop 8 r),
  take_add 4 8 (drop 8 (drop 8 r)),
  drop-drop 8 8 r,
  drop-drop 16 4 r,
)

-- Any 29 bytes decode to a message that the wire can carry, and are the encoding of that message.
pub message_decode_in :
    (bytes : List ℕ)
    → IsBytes bytes
    → 29 ≤ length bytes
    → (m : OrderMessage) × (message_decode bytes ≡ some m)
      × IsWire m
      × (message_encode m ≡ take 29 bytes)
unfolding message_decode message_encode
message_decode_in [] bs h = absurd (omega arith)
message_decode_in (t ∷ r) bs h =
    let p = get_u64_in (drop 8 r) (All-drop _ 8 r bs.1) (omega (arith, length-drop {0} 8 r)) in
    let z = get_u32_in (drop 16 r) (All-drop _ 16 r bs.1) (omega (arith, length-drop {0} 16 r)) in
    let e = get_u64_in (drop 20 r) (All-drop _ 20 r bs.1) (omega (arith, length-drop {0} 20 r)) in
    let whole : take 8 (take 8 r ++ 0 ∷ []) ≡ take 8 r =
      take-append_of_length 8 (take 8 r) (0 ∷ []) (length-take 8 r (omega arith)) in
    let byte : t % 2 ^ 8 ≡ t = omega (arith, bs.0) in
    (
      record {
        type = t;
        symbol = take 8 r ++ 0 ∷ [];
        price = to_i64 p.0;
        size = z.0;
        timestamp = e.0;
      },
      rw (copy_bytes_in 8 r (omega arith), p.1, z.1, e.1),
      record {
        type_byte = bs.0;
        symbol_terminated = ap (λ s. s ++ 0 ∷ []) whole;
        symbol_length = ap length whole ∙ length-take 8 r (omega arith);
        price_int64 = to_i64-IsInt64 p.0 p.2;
        size_u32 = z.2;
        timestamp_u64 = e.2;
      },
      rw (whole, to_u64-to_i64 p.0 p.2, p.3, z.3, e.3, take_parts r, byte),
    )

take_header :
    (bytes : List ℕ)
    → take 45 bytes
      ≡ take 4 bytes
        ++ (take 2 (drop 4 bytes)
            ++ (take 8 (drop 6 bytes) ++ (take 2 (drop 14 bytes) ++ take 29 (drop 16 bytes))))
take_header bytes = rw (
  take_add 4 41 bytes,
  take_add 2 39 (drop 4 bytes),
  take_add 8 31 (drop 2 (drop 4 bytes)),
  take_add 2 29 (drop 8 (drop 2 (drop 4 bytes))),
  drop-drop 4 2 bytes,
  drop-drop 6 8 bytes,
  drop-drop 14 2 bytes,
)

dgram_encode_parts :
    (bytes : List ℕ) (w b q z : ℕ) (m : OrderMessage)
    → 45 ≤ length bytes
    → w ≡ magic
    → z ≡ order_message_size
    → put_u32 w ≡ take 4 bytes
    → put_u16 b ≡ take 2 (drop 4 bytes)
    → put_u64 q ≡ take 8 (drop 6 bytes)
    → put_u16 z ≡ take 2 (drop 14 bytes)
    → message_encode m ≡ take 29 (drop 16 bytes)
    → dgram_encode b q (message_encode m) ≡ take 45 bytes
unfolding dgram_encode
dgram_encode_parts bytes w b q z m l ew ez pw pb pq pz pm =
    let whole : take 29 (take 29 (drop 16 bytes)) ≡ take 29 (drop 16 bytes) =
      take_all 29 _ (length-take 29 (drop 16 bytes) (omega (arith, length-drop {0} 16 bytes))) in
    rw (rw ew at pw, pb, pq, rw ez at pz, pm, whole, take_header bytes)

-- What is known of an accepted datagram: its fields fit the wire, and it is their encoding.
abbrev pub Accepted : List ℕ → ℕ → Option Dgram → Type 0
Accepted bytes len none = Unit
Accepted bytes len (some d) =
    (45 ≤ len)
    × (d.bucket < 2 ^ 16)
    × (d.sequence < 2 ^ 64)
    × IsWire d.message
    × (dgram_encode d.bucket d.sequence (message_encode d.message) ≡ take 45 bytes)

-- On any bytes, of any length up to the buffer's, `dgram_decode` reads nothing out of range, and
-- it accepts only what `dgram_encode` can write, with the fields that were written.
pub dgram_decode_in :
    (bytes : List ℕ) (len : ℕ)
    → IsBytes bytes
    → len ≤ length bytes
    → (r : Option Dgram) × (dgram_decode bytes len ≡ some r) × Accepted bytes len r
unfolding dgram_decode dgram_encode
dgram_decode_in bytes len bs h = elim (Bool-cases (ltb len 45)) [
  | inl short ↦ (none, rw short, tt)
  | inr long ↦
      let l : 45 ≤ len = ltb→ge len 45 long in
      let w = get_u32_in bytes bs (omega arith) in
      let b =
        get_u16_in (drop 4 bytes) (All-drop _ 4 bytes bs)
          (omega (arith, length-drop {0} 4 bytes)) in
      let s =
        get_u64_in (drop 6 bytes) (All-drop _ 6 bytes bs)
          (omega (arith, length-drop {0} 6 bytes)) in
      let z =
        get_u16_in (drop 14 bytes) (All-drop _ 14 bytes bs)
          (omega (arith, length-drop {0} 14 bytes)) in
      let m =
        message_decode_in (drop 16 bytes) (All-drop _ 16 bytes bs)
          (omega (arith, length-drop {0} 16 bytes)) in
      elim (Bool-cases (w.0 == magic)) [
        | inr other ↦ (none, rw (long, w.1, other), tt)
        | inl same ↦ elim (Bool-cases (z.0 == order_message_size)) [
          | inr other ↦ (none, rw (long, w.1, same, b.1, s.1, z.1, other), tt)
          | inl sized ↦ (
            some (record { bucket = b.0; sequence = s.0; message = m.0 }),
            rw (long, w.1, same, b.1, s.1, z.1, sized, m.1),
            (
              l,
              b.2,
              s.2,
              m.2,
              dgram_encode_parts bytes w.0 b.0 s.0 z.0 m.0 (omega arith) ((==_iff _ _).0 same)
                  ((==_iff _ _).0 sized) w.3 b.3 s.3 z.3 m.3,
            ),
          )
        ]
      ]
]
