-- ===== src/Wire/Hash.antt =====
-- src/helpers.h: FNV-1a, the bucket of a symbol, and the running fingerprint.
use Prim.Native.Nat.{bit_xor, bit_and}
use mega_feed_handler.Base.{
  ℕ, zero, suc, ◌+◌, ◌*◌, ◌%◌, ◌<◌, ◌≡◌, refl, List, [], ◌∷◌, ◌++◌, arith, ◌==◌, if◌then◌else◌,
}
use mega_feed_handler.Base.Bits.{◌>>>◌, u8, u64, bit_and_byte}
use mega_feed_handler.Wire.Bytes.{put_u64}

abbrev pub fnv_prime : ℕ
fnv_prime = 1099511628211

abbrev pub fnv_offset : ℕ
fnv_offset = 1469598103934665603

-- One round of the loop.
unfoldable pub fnv_byte : ℕ → ℕ → ℕ
fnv_byte hash byte = u64 (bit_xor hash byte * fnv_prime)

unfoldable pub fnv_bytes : ℕ → List ℕ → ℕ
unfolding fnv_byte
fnv_bytes hash [] = hash
fnv_bytes hash (b ∷ bytes) = fnv_bytes (fnv_byte hash b) bytes

unfoldable pub fnv1a : List ℕ → ℕ
unfolding fnv_bytes
fnv1a bytes = fnv_bytes fnv_offset bytes

-- The text that an array holds: `strlen` counts up to the first zero byte.
unfoldable pub c_string : List ℕ → List ℕ
c_string [] = []
c_string (b ∷ bytes) = let rest = c_string bytes in if b == 0 then [] else b ∷ rest

unfoldable pub bucket_of : List ℕ → ℕ → ℕ
unfolding fnv1a c_string
bucket_of symbol bucket_count = fnv1a (c_string symbol) % bucket_count

-- `struct Fingerprint`
pub record Fingerprint : Type 0 where
  pub hash : ℕ

abbrev pub initial_fingerprint : Fingerprint
initial_fingerprint = record { hash = 6942098103934665603 }

-- The loop of `mix` at round `i`, with `left` rounds to go.
mix_loop : ℕ → ℕ → ℕ → ℕ → ℕ
unfolding fnv_byte
mix_loop zero i value hash = hash
mix_loop (suc left) i value hash =
    mix_loop left (i + 1) value (fnv_byte hash (bit_and (value >>> (8 * i)) 0xff))

unfoldable pub mix : Fingerprint → ℕ → Fingerprint
unfolding mix_loop
mix f value = record { hash = mix_loop 8 0 value f.hash }

-- A symbol goes to one of the buckets.
pub bucket_of-lt :
    (symbol : List ℕ) (bucket_count : ℕ)
    → 0 < bucket_count
    → bucket_of symbol bucket_count < bucket_count
unfolding bucket_of
bucket_of-lt symbol n h = omega arith

pub fnv_bytes-append :
    (hash : ℕ) (xs ys : List ℕ) → fnv_bytes hash (xs ++ ys) ≡ fnv_bytes (fnv_bytes hash xs) ys
unfolding fnv_bytes
fnv_bytes-append hash [] ys = refl
fnv_bytes-append hash (x ∷ xs) ys = fnv_bytes-append (fnv_byte hash x) xs ys

-- `mix` is FNV-1a over the eight bytes that `put_u64` stores.
pub mix_lem : (f : Fingerprint) (value : ℕ) → (mix f value).hash ≡ fnv_bytes f.hash (put_u64 value)
unfolding mix put_u64 fnv_bytes
mix_lem f value =
    let lowest : bit_and (value >>> 0) 0xff ≡ u8 value =
      omega (arith, bit_and_byte (value >>> 0)) in
    rw (
      lowest,
      bit_and_byte (value >>> 8),
      bit_and_byte (value >>> 16),
      bit_and_byte (value >>> 24),
      bit_and_byte (value >>> 32),
      bit_and_byte (value >>> 40),
      bit_and_byte (value >>> 48),
      bit_and_byte (value >>> 56),
    )
