-- ===== src/Capture/Order.antt =====
-- src/pcapng_reader.h: numbers in the byte order of the capture (`order_u16`, `order_u32`) and in
-- that of the network (`net_u16`).
use Prim.Native.Nat.{bit_or, bit_and}
use mega_feed_handler.Base.{
  ℕ, ◌+◌, ◌*◌, ◌^◌, ◌<◌, ◌≤◌, ◌≡◌, refl, ap, ◌∙◌, Bool, true, false, Option, some, List, [], ◌∷◌,
  ◌++◌, arith, ◌>>=◌, get_elem?, length, drop, Succeeds, All-drop, length-drop, if◌then◌else◌,
}
use mega_feed_handler.Base.Bits.{
  ◌<<<◌, ◌>>>◌, u8, u16, u32, bit_or_fields, bit_or_low, bit_and_byte, bit_and_shifted,
}
use mega_feed_handler.Wire.Bytes.{
  IsBytes, put_u16, put_u32, get_u16, get_u32, get_u16-put_u16, get_u32-put_u32, get_u16_in,
  get_u32_in, get_u16_sum, get_u32_sum, length-put_u16, length-put_u32,
}

-- `(uint16_t)((value >> 8) | (value << 8))`
unfoldable pub swap_u16 : ℕ → ℕ
swap_u16 value = u16 (bit_or (value >>> 8) (value <<< 8))

-- The four bytes of a number in the opposite order.
unfoldable pub swap_u32 : ℕ → ℕ
swap_u32 value =
    bit_or
      (bit_or (bit_or (bit_and (value >>> 24) 0x000000ff) (bit_and (value >>> 8) 0x0000ff00))
        (bit_and (u32 (value <<< 8)) 0x00ff0000))
      (bit_and (u32 (value <<< 24)) 0xff000000)

unfoldable pub order_u16 : Bool → List ℕ → Option ℕ
order_u16 swapped bytes = do value ← get_u16 bytes; some (if swapped then swap_u16 value else value)

unfoldable pub order_u32 : Bool → List ℕ → Option ℕ
order_u32 swapped bytes = do value ← get_u32 bytes; some (if swapped then swap_u32 value else value)

unfoldable pub net_u16 : List ℕ → Option ℕ
net_u16 bytes = do
  high ← get_elem? bytes 0
  low ← get_elem? bytes 1
  some (u16 (bit_or (high <<< 8) low))

-- What a writer of either byte order stores.
unfoldable pub store_u16 : Bool → ℕ → List ℕ
store_u16 false value = put_u16 value
store_u16 true value = u8 (value >>> 8) ∷ u8 value ∷ []

unfoldable pub store_u32 : Bool → ℕ → List ℕ
store_u32 false value = put_u32 value
store_u32 true value = u8 (value >>> 24) ∷ u8 (value >>> 16) ∷ u8 (value >>> 8) ∷ u8 value ∷ []

swap_u16_sum : (a b : ℕ) → a < 2 ^ 8 → b < 2 ^ 8 → swap_u16 (a + b * 2 ^ 8) ≡ b + a * 2 ^ 8
unfolding swap_u16
swap_u16_sum a b pa pb =
    let upper : (a + b * 2 ^ 8) >>> 8 ≡ b = omega arith in
    rw (upper, bit_or_fields 8 b (a + b * 2 ^ 8) pb) (omega arith)

swap_u32_sum :
    (a b c d : ℕ)
    → a < 2 ^ 8
    → b < 2 ^ 8
    → c < 2 ^ 8
    → d < 2 ^ 8
    → swap_u32 (a + b * 2 ^ 8 + c * 2 ^ 16 + d * 2 ^ 24) ≡ d + c * 2 ^ 8 + b * 2 ^ 16 + a * 2 ^ 24
unfolding swap_u32
swap_u32_sum a b c d pa pb pc pd =
    let v : ℕ = a + b * 2 ^ 8 + c * 2 ^ 16 + d * 2 ^ 24 in
    let byte0 : bit_and (v >>> 24) 0x000000ff ≡ d = bit_and_byte (v >>> 24) ∙ omega arith in
    let byte1 : bit_and (v >>> 8) 0x0000ff00 ≡ c <<< 8 =
      bit_and_shifted 8 (v >>> 8) 0xff ∙ (ap (λ t. t * 2 ^ 8) (bit_and_byte _) ∙ omega arith) in
    let byte2 : bit_and (u32 (v <<< 8)) 0x00ff0000 ≡ b <<< 16 =
      bit_and_shifted 16 (u32 (v <<< 8)) 0xff
      ∙ (ap (λ t. t * 2 ^ 16) (bit_and_byte _) ∙ omega arith) in
    let byte3 : bit_and (u32 (v <<< 24)) 0xff000000 ≡ a <<< 24 =
      bit_and_shifted 24 (u32 (v <<< 24)) 0xff
      ∙ (ap (λ t. t * 2 ^ 24) (bit_and_byte _) ∙ omega arith) in
    rw (
      byte0,
      byte1,
      byte2,
      byte3,
      bit_or_fields 8 d c pd,
      bit_or_fields 16 (d + c * 2 ^ 8) b (omega arith),
      bit_or_fields 24 (d + c * 2 ^ 8 + b * 2 ^ 16) a (omega arith),
    )

-- Reading in a byte order what a writer of that order stored, with anything behind it.
pub order_u16-store_u16 :
    (swapped : Bool) (v : ℕ) (rest : List ℕ)
    → v < 2 ^ 16
    → order_u16 swapped (store_u16 swapped v ++ rest) ≡ some v
unfolding order_u16 store_u16
order_u16-store_u16 false v rest h = rw (get_u16-put_u16 v rest h) refl
order_u16-store_u16 true v rest h =
    let low : ℕ = u8 v in
    let high : ℕ = u8 (v >>> 8) in
    rw (get_u16_sum high low rest (omega arith), swap_u16_sum high low (omega arith) (omega arith))
      (ap some (omega arith))

pub order_u32-store_u32 :
    (swapped : Bool) (v : ℕ) (rest : List ℕ)
    → v < 2 ^ 32
    → order_u32 swapped (store_u32 swapped v ++ rest) ≡ some v
unfolding order_u32 store_u32
order_u32-store_u32 false v rest h = rw (get_u32-put_u32 v rest h) refl
order_u32-store_u32 true v rest h =
    let a : ℕ = u8 (v >>> 24) in
    let b : ℕ = u8 (v >>> 16) in
    let c : ℕ = u8 (v >>> 8) in
    let d : ℕ = u8 v in
    rw
      (
        get_u32_sum a b c d rest (omega arith) (omega arith) (omega arith),
        swap_u32_sum a b c d (omega arith) (omega arith) (omega arith) (omega arith),
      )
      (ap some (omega arith))

-- With enough bytes a read does not fault, and its value fits the width.
pub order_u16_in :
    (swapped : Bool) (bytes : List ℕ)
    → IsBytes bytes
    → 2 ≤ length bytes
    → Succeeds (λ v. v < 2 ^ 16) (order_u16 swapped bytes)
unfolding order_u16 swap_u16
order_u16_in false bytes bs h =
    let (v, read, small, _) = get_u16_in bytes bs h in (v, rw read refl, small)
order_u16_in true bytes bs h =
    let (v, read, small, _) = get_u16_in bytes bs h in (swap_u16 v, rw read refl, omega arith)

pub order_u32_in :
    (swapped : Bool) (bytes : List ℕ)
    → IsBytes bytes
    → 4 ≤ length bytes
    → Succeeds (λ v. v < 2 ^ 32) (order_u32 swapped bytes)
unfolding order_u32
order_u32_in false bytes bs h =
    let (v, read, small, _) = get_u32_in bytes bs h in (v, rw read refl, small)
order_u32_in true [] bs h = absurd (omega arith)
order_u32_in true (a ∷ []) bs h = absurd (omega arith)
order_u32_in true (a ∷ b ∷ []) bs h = absurd (omega arith)
order_u32_in true (a ∷ b ∷ c ∷ []) bs h = absurd (omega arith)
order_u32_in true (a ∷ b ∷ c ∷ d ∷ rest) (pa, (pb, (pc, (pd, _)))) h = (
  swap_u32 (a + b * 2 ^ 8 + c * 2 ^ 16 + d * 2 ^ 24),
  rw (get_u32_sum a b c d rest pa pb pc) refl,
  rw (swap_u32_sum a b c d pa pb pc pd) (omega arith),
)

-- The same at an offset of a list that reaches so far.
pub u16_at :
    (swapped : Bool) (bytes : List ℕ)
    → IsBytes bytes
    → (offset : ℕ) → offset + 2 ≤ length bytes
    → Succeeds (λ v. v < 2 ^ 16) (order_u16 swapped (drop offset bytes))
u16_at swapped bytes bs offset h =
    order_u16_in swapped (drop offset bytes) (All-drop _ offset bytes bs)
      (omega (arith, length-drop {0} offset bytes))

pub u32_at :
    (swapped : Bool) (bytes : List ℕ)
    → IsBytes bytes
    → (offset : ℕ) → offset + 4 ≤ length bytes
    → Succeeds (λ v. v < 2 ^ 32) (order_u32 swapped (drop offset bytes))
u32_at swapped bytes bs offset h =
    order_u32_in swapped (drop offset bytes) (All-drop _ offset bytes bs)
      (omega (arith, length-drop {0} offset bytes))

-- Two bytes of the network at the front of a list with at least two.
pub net_u16_sum :
    (a b : ℕ) (rest : List ℕ)
    → a < 2 ^ 8
    → b < 2 ^ 8
    → net_u16 (a ∷ b ∷ rest) ≡ some (a * 2 ^ 8 + b)
unfolding net_u16
net_u16_sum a b rest pa pb = ap some (omega (arith, bit_or_low 8 a b pb))

pub net_u16_in : (bytes : List ℕ) → 2 ≤ length bytes → Succeeds (λ v. v < 2 ^ 16) (net_u16 bytes)
unfolding net_u16
net_u16_in [] h = absurd (omega arith)
net_u16_in (a ∷ []) h = absurd (omega arith)
net_u16_in (a ∷ b ∷ _) h = (u16 (bit_or (a <<< 8) b), refl, omega arith)

pub length-store_u16 : (swapped : Bool) (v : ℕ) → length (store_u16 swapped v) ≡ 2
unfolding store_u16
length-store_u16 false v = length-put_u16 v
length-store_u16 true v = refl

pub length-store_u32 : (swapped : Bool) (v : ℕ) → length (store_u32 swapped v) ≡ 4
unfolding store_u32
length-store_u32 false v = length-put_u32 v
length-store_u32 true v = refl
