-- ===== src/Capture/Short.antt =====
-- src/pcapng_reader.h: when exactly a round of `read_until_next_packet_block` reads out of range.
use mega_feed_handler.Base.{
  ℕ, ◌+◌, ◌-◌, ◌<◌, ◌≤◌, ◌≡◌, ◌↔◌, inl, inr, refl, ap, ◌∙◌, Bool, true, false, ◌||◌, Option, none,
  some, List, [], ◌∷◌, arith, ltb, ◌==◌, ◌>>=◌, length, take, drop, All, length-take, length-drop,
  Bool-cases,
}
use mega_feed_handler.Wire.Bytes.{IsBytes, get_u32}
use mega_feed_handler.Capture.Order.{order_u32, swap_u32}
use mega_feed_handler.Capture.Defs.{PcapngReader, max_block_length, section_kind}
use mega_feed_handler.Capture.Blocks.{packet_block, typed_block, other_block, read_block}
use mega_feed_handler.Capture.Interfaces.{IsInterface}
use mega_feed_handler.Capture.Reads.{fread_lem}
use mega_feed_handler.Capture.Headers.{ShortPacketBlock, first_u32, read_block_in}

>>=-none :
    {A B : Type 0} (o : Option A) {f : A → Option B} → ((a : A) → f a ≡ none) → (o >>= f) ≡ none
>>=-none none h = refl
>>=-none (some a) h = h a

order_u32-none :
    (swapped : Bool) (bytes : List ℕ) → length bytes < 4 → order_u32 swapped bytes ≡ none
unfolding order_u32 get_u32
order_u32-none swapped [] h = refl
order_u32-none swapped (a ∷ []) h = refl
order_u32-none swapped (a ∷ b ∷ []) h = refl
order_u32-none swapped (a ∷ b ∷ c ∷ []) h = refl
order_u32-none swapped (a ∷ b ∷ c ∷ d ∷ _) h = absurd (omega arith)

packet_block-none :
    (body rest : List ℕ) (r : PcapngReader) → length body < 20 → packet_block body rest r ≡ none
unfolding packet_block
packet_block-none body rest r h =
    let last : order_u32 r.swapped_endian (drop 16 body) ≡ none =
      order_u32-none r.swapped_endian (drop 16 body) (omega (arith, length-drop {0} 16 body)) in
    >>=-none (order_u32 r.swapped_endian body) (λ id.
      >>=-none (order_u32 r.swapped_endian (drop 4 body)) (λ high.
        >>=-none (order_u32 r.swapped_endian (drop 8 body))
          (λ low. >>=-none (order_u32 r.swapped_endian (drop 12 body)) (λ captured. rw last refl))))

-- The first number of a section header is that of no packet block, in either byte order.
section-order :
    (swapped : Bool) (bytes : List ℕ)
    → get_u32 bytes ≡ some section_kind
    → order_u32 swapped bytes ≡ some 6
    → ⊥
unfolding order_u32 swap_u32
section-order false bytes kind order = cc
section-order true bytes kind order =
    let swapped_kind : some (swap_u32 section_kind) ≡ some 6 = rw kind at order in cc

pub short-none :
    (bytes : List ℕ)
    → IsBytes bytes
    → (r : PcapngReader) → ShortPacketBlock bytes r
    → read_block bytes r ≡ none
unfolding read_block other_block typed_block
short-none bytes bs r short =
    let total = short.total_length in
    let whole : 8 ≤ length bytes = omega (arith, short) in
    let (kind, is_kind, _) = first_u32 8 bytes bs whole (omega arith) in
    let size : (total - 8) + 8 ≡ total = omega (arith, short) in
    let rest : List ℕ = drop 8 bytes in
    let fits : total - 8 ≤ length rest = omega (arith, short, length-drop {0} 8 bytes) in
    let proper : (ltb total 12 || ltb max_block_length total) ≡ false = ground (arith, short) in
    elim (Bool-cases (kind == section_kind)) [
      | inl section ↦ absurd (
          section-order r.swapped_endian (take 8 bytes) (is_kind ∙ ap some (ground arith))
            short.is_packet_block)
      | inr other ↦
          rw
            (
              fread_lem 8 bytes whole,
              is_kind,
              other,
              short.is_packet_block,
              short.has_total_length,
              proper,
              fread_lem (total - 8) rest fits,
              read_block,
              other_block,
              typed_block,
            )
            (packet_block-none (take (total - 8) rest) (drop (total - 8) rest) r
              (omega (arith, short, length-take (total - 8) rest fits)))
    ]

-- Every bad input of a round but a short packet block is answered without a read out of range.
pub read_block-none_iff :
    (bytes : List ℕ)
    → IsBytes bytes
    → (r : PcapngReader) → All IsInterface r.interfaces
    → (read_block bytes r ≡ none) ↔ ShortPacketBlock bytes r
read_block-none_iff bytes bs r good = (
  λ fault. elim (read_block_in bytes bs r good) [
    | inl short ↦ short
    | inr (round, e, _) ↦ absurd (cc)
  ],
  short-none bytes bs r,
)
