-- ===== src/Wire/Bytes.antt =====
-- src/helpers.h: little-endian numbers. A pointer into a buffer is the list of the bytes from it
-- on; a read past the end of that list is `none`, which C leaves undefined.
use Prim.Native.Nat.{bit_or}
use mega_feed_handler.Base.{
  ℕ, ◌+◌, ◌*◌, ◌^◌, ◌<◌, ◌≤◌, ◌≡◌, refl, ap, Option, some, List, [], ◌∷◌, ◌++◌, arith, ◌>>=◌,
  get_elem?, length, All, take,
}
use mega_feed_handler.Base.Bits.{◌<<<◌, ◌>>>◌, u8, bit_or_fields}

-- What is stored from `bytes` on.
unfoldable pub put_u16 : ℕ → List ℕ
put_u16 value = u8 value ∷ u8 (value >>> 8) ∷ []

unfoldable pub put_u32 : ℕ → List ℕ
put_u32 value = u8 value ∷ u8 (value >>> 8) ∷ u8 (value >>> 16) ∷ u8 (value >>> 24) ∷ []

unfoldable pub put_u64 : ℕ → List ℕ
put_u64 value =
    u8 value
    ∷ u8 (value >>> 8)
    ∷ u8 (value >>> 16)
    ∷ u8 (value >>> 24)
    ∷ u8 (value >>> 32)
    ∷ u8 (value >>> 40)
    ∷ u8 (value >>> 48)
    ∷ u8 (value >>> 56)
    ∷ []

or_2 : ℕ → ℕ → ℕ
or_2 a b = bit_or a (b <<< 8)

or_4 : ℕ → ℕ → ℕ → ℕ → ℕ
or_4 a b c d = bit_or (bit_or (bit_or a (b <<< 8)) (c <<< 16)) (d <<< 24)

or_8 : ℕ → ℕ → ℕ → ℕ → ℕ → ℕ → ℕ → ℕ → ℕ
unfolding or_4
or_8 a b c d e f g h =
    bit_or (bit_or (bit_or (bit_or (or_4 a b c d) (e <<< 32)) (f <<< 40)) (g <<< 48)) (h <<< 56)

unfoldable pub get_u16 : List ℕ → Option ℕ
unfolding or_2
get_u16 bytes = do a ← get_elem? bytes 0; b ← get_elem? bytes 1; some (or_2 a b)

unfoldable pub get_u32 : List ℕ → Option ℕ
unfolding or_4
get_u32 bytes = do
  a ← get_elem? bytes 0
  b ← get_elem? bytes 1
  c ← get_elem? bytes 2
  d ← get_elem? bytes 3
  some (or_4 a b c d)

unfoldable pub get_u64 : List ℕ → Option ℕ
unfolding or_8
get_u64 bytes = do
  a ← get_elem? bytes 0
  b ← get_elem? bytes 1
  c ← get_elem? bytes 2
  d ← get_elem? bytes 3
  e ← get_elem? bytes 4
  f ← get_elem? bytes 5
  g ← get_elem? bytes 6
  h ← get_elem? bytes 7
  some (or_8 a b c d e f g h)

abbrev pub IsBytes : List ℕ → Type 0
IsBytes = All (λ b. b < 2 ^ 8)

or_2_sum : (a b : ℕ) → a < 2 ^ 8 → or_2 a b ≡ a + b * 2 ^ 8
unfolding or_2
or_2_sum a b p = bit_or_fields 8 a b p

or_4_sum :
    (a b c d : ℕ)
    → a < 2 ^ 8
    → b < 2 ^ 8
    → c < 2 ^ 8
    → or_4 a b c d ≡ a + b * 2 ^ 8 + c * 2 ^ 16 + d * 2 ^ 24
unfolding or_4
or_4_sum a b c d p q r = rw (
  bit_or_fields 8 a b p,
  bit_or_fields 16 (a + b * 2 ^ 8) c (omega arith),
  bit_or_fields 24 (a + b * 2 ^ 8 + c * 2 ^ 16) d (omega arith),
)

or_8_sum :
    (a b c d e f g h : ℕ)
    → a < 2 ^ 8
    → b < 2 ^ 8
    → c < 2 ^ 8
    → d < 2 ^ 8
    → e < 2 ^ 8
    → f < 2 ^ 8
    → g < 2 ^ 8
    → or_8 a b c d e f g h
      ≡ a + b * 2 ^ 8 + c * 2 ^ 16 + d * 2 ^ 24 + e * 2 ^ 32 + f * 2 ^ 40 + g * 2 ^ 48 + h * 2 ^ 56
unfolding or_8
or_8_sum a b c d e f g h pa pb pc pd pe pf pg =
    let low : ℕ = a + b * 2 ^ 8 + c * 2 ^ 16 + d * 2 ^ 24 in
    rw (
      or_4_sum a b c d pa pb pc,
      bit_or_fields 32 low e (omega arith),
      bit_or_fields 40 (low + e * 2 ^ 32) f (omega arith),
      bit_or_fields 48 (low + e * 2 ^ 32 + f * 2 ^ 40) g (omega arith),
      bit_or_fields 56 (low + e * 2 ^ 32 + f * 2 ^ 40 + g * 2 ^ 48) h (omega arith),
    )

-- The number that bytes in a row are.
pub get_u16_sum :
    (a b : ℕ) (rest : List ℕ) → a < 2 ^ 8 → get_u16 (a ∷ b ∷ rest) ≡ some (a + b * 2 ^ 8)
unfolding get_u16
get_u16_sum a b rest p = ap some (or_2_sum a b p)

pub get_u32_sum :
    (a b c d : ℕ) (rest : List ℕ)
    → a < 2 ^ 8
    → b < 2 ^ 8
    → c < 2 ^ 8
    → get_u32 (a ∷ b ∷ c ∷ d ∷ rest) ≡ some (a + b * 2 ^ 8 + c * 2 ^ 16 + d * 2 ^ 24)
unfolding get_u32
get_u32_sum a b c d rest p q r = ap some (or_4_sum a b c d p q r)

-- Reading back what was stored, with anything behind it.
pub get_u16-put_u16 : (v : ℕ) (rest : List ℕ) → v < 2 ^ 16 → get_u16 (put_u16 v ++ rest) ≡ some v
unfolding get_u16 put_u16
get_u16-put_u16 v rest h = ap some (omega (arith, or_2_sum (u8 v) (u8 (v >>> 8)) (omega arith)))

pub get_u32-put_u32 : (v : ℕ) (rest : List ℕ) → v < 2 ^ 32 → get_u32 (put_u32 v ++ rest) ≡ some v
unfolding get_u32 put_u32
get_u32-put_u32 v rest h = ap some (
    omega (
      arith,
      or_4_sum (u8 v) (u8 (v >>> 8)) (u8 (v >>> 16)) (u8 (v >>> 24)) (omega arith) (omega arith)
          (omega arith),
    ))

pub get_u64-put_u64 : (v : ℕ) (rest : List ℕ) → v < 2 ^ 64 → get_u64 (put_u64 v ++ rest) ≡ some v
unfolding get_u64 put_u64
get_u64-put_u64 v rest h = ap some (
    omega (
      arith,
      or_8_sum (u8 v) (u8 (v >>> 8)) (u8 (v >>> 16)) (u8 (v >>> 24)) (u8 (v >>> 32)) (u8 (v >>> 40))
          (u8 (v >>> 48)) (u8 (v >>> 56)) (omega arith) (omega arith) (omega arith) (omega arith)
          (omega arith) (omega arith) (omega arith),
    ))

-- With enough bytes a read does not fault, and storing its value writes those bytes again.
pub get_u16_in :
    (bytes : List ℕ)
    → IsBytes bytes
    → 2 ≤ length bytes
    → (v : ℕ) × (get_u16 bytes ≡ some v) × (v < 2 ^ 16) × (put_u16 v ≡ take 2 bytes)
unfolding get_u16 put_u16
get_u16_in [] bs h = absurd (omega arith)
get_u16_in (a ∷ []) bs h = absurd (omega arith)
get_u16_in (a ∷ b ∷ _) (pa, (pb, _)) h =
    let e = or_2_sum a b pa in (or_2 a b, refl, omega (arith, e), ground (arith, e))

pub get_u32_in :
    (bytes : List ℕ)
    → IsBytes bytes
    → 4 ≤ length bytes
    → (v : ℕ) × (get_u32 bytes ≡ some v) × (v < 2 ^ 32) × (put_u32 v ≡ take 4 bytes)
unfolding get_u32 put_u32
get_u32_in [] bs h = absurd (omega arith)
get_u32_in (a ∷ []) bs h = absurd (omega arith)
get_u32_in (a ∷ b ∷ []) bs h = absurd (omega arith)
get_u32_in (a ∷ b ∷ c ∷ []) bs h = absurd (omega arith)
get_u32_in (a ∷ b ∷ c ∷ d ∷ _) (pa, (pb, (pc, (pd, _)))) h =
    let e = or_4_sum a b c d pa pb pc in (or_4 a b c d, refl, omega (arith, e), ground (arith, e))

pub get_u64_in :
    (bytes : List ℕ)
    → IsBytes bytes
    → 8 ≤ length bytes
    → (v : ℕ) × (get_u64 bytes ≡ some v) × (v < 2 ^ 64) × (put_u64 v ≡ take 8 bytes)
unfolding get_u64 put_u64
get_u64_in (a ∷ b ∷ c ∷ d ∷ e ∷ f ∷ g ∷ h ∷ _) (pa, (pb, (pc, (pd, (pe, (pf, (pg, (ph, _)))))))) l =
    let s = or_8_sum a b c d e f g h pa pb pc pd pe pf pg in
    (or_8 a b c d e f g h, refl, omega (arith, s), ground (arith, s))
get_u64_in _ bs h = absurd (omega arith)

pub length-put_u16 : (v : ℕ) → length (put_u16 v) ≡ 2
unfolding put_u16
length-put_u16 v = refl

pub length-put_u32 : (v : ℕ) → length (put_u32 v) ≡ 4
unfolding put_u32
length-put_u32 v = refl

pub length-put_u64 : (v : ℕ) → length (put_u64 v) ≡ 8
unfolding put_u64
length-put_u64 v = refl
