-- ===== src/Capture/Open.antt =====
-- src/pcapng_reader.h: what `open` accepts, and what it says of the rest.
use mega_feed_handler.Base.{
  ℕ, suc, ◌+◌, ◌*◌, ◌^◌, ◌<◌, ◌≡◌, refl, Bool, true, false, ◌&&◌, ◌||◌, Option, none, some, List,
  [], ◌∷◌, arith, ltb, ◌==◌, length, All, if◌then◌else◌,
}
use mega_feed_handler.Wire.Bytes.{IsBytes, get_u32_sum}
use mega_feed_handler.Capture.Defs.{
  PcapngReader, OpenError, too_short, classic_pcap, not_pcapng, magic_error, fread, open_file,
}
use mega_feed_handler.Capture.FileTrip.{fread-append}

-- The first four bytes of a file are these.
abbrev pub begins : ℕ → ℕ → ℕ → ℕ → List ℕ → Bool
begins a b c d (a' ∷ b' ∷ c' ∷ d' ∷ _) = a' == a && (b' == b && (c' == c && d' == d))
begins a b c d _ = false

-- What is wrong with a file, if anything, told by its bytes: pcapng begins with a section header,
-- and pcap with its magic for micro- or nanoseconds in either byte order.
abbrev pub format_error : List ℕ → Option OpenError
format_error bytes =
    if ltb (length bytes) 4
    then some too_short
    else (if begins 0x0a 0x0d 0x0d 0x0a bytes
        then none
        else (if begins 0xd4 0xc3 0xb2 0xa1 bytes
              || begins 0xa1 0xb2 0xc3 0xd4 bytes
              || begins 0x4d 0x3c 0xb2 0xa1 bytes
              || begins 0xa1 0xb2 0x3c 0x4d bytes
            then some classic_pcap
            else some not_pcapng))

-- The reader behind `open`: the file is open from its first byte on, or none is.
abbrev pub opened_with : PcapngReader → List ℕ → Option OpenError → PcapngReader
opened_with r bytes none = record r { file = some bytes }
opened_with r bytes (some error) = record r { file = none }

-- Numbers of four bytes are equal when the bytes are.
same_number :
    (a b c d w x y z : ℕ)
    → All (λ n. n < 2 ^ 8) (a ∷ b ∷ c ∷ d ∷ w ∷ x ∷ y ∷ z ∷ [])
    → ((a + b * 2 ^ 8 + c * 2 ^ 16 + d * 2 ^ 24) == (w + x * 2 ^ 8 + y * 2 ^ 16 + z * 2 ^ 24))
      ≡ (a == w && (b == x && (c == y && d == z)))
same_number a b c d w x y z (pa, (pb, (pc, (pd, (pw, (px, (py, (pz, _)))))))) = ground arith

-- The two tests, whatever they are.
answers :
    (r : PcapngReader) (bytes : List ℕ) (pcapng classic : Bool)
    → if◌then◌else◌ {A = Option (Option OpenError × PcapngReader)} pcapng
        (some (none, record r { file = some bytes }))
        (some (some (if classic then classic_pcap else not_pcapng), record r { file = none }))
      ≡ some (
        if pcapng then none else (if classic then some classic_pcap else some not_pcapng),
        opened_with r bytes
            (if pcapng then none else (if classic then some classic_pcap else some not_pcapng)),
      )
answers r bytes true classic = refl
answers r bytes false true = refl
answers r bytes false false = refl

pub open_file_lem :
    (r : PcapngReader) (bytes : List ℕ)
    → IsBytes bytes
    → open_file (some bytes) r ≡ some (format_error bytes, opened_with r bytes (format_error bytes))
unfolding open_file magic_error fread
open_file_lem r [] bs = refl
open_file_lem r (a ∷ []) bs = refl
open_file_lem r (a ∷ b ∷ []) bs = refl
open_file_lem r (a ∷ b ∷ c ∷ []) bs = refl
open_file_lem r (a ∷ b ∷ c ∷ d ∷ rest) (pa, (pb, (pc, (pd, bs)))) =
    let magic : ℕ = a + b * 2 ^ 8 + c * 2 ^ 16 + d * 2 ^ 24 in
    let long : ltb (suc (suc (suc (suc (length rest))))) 4 ≡ false = ground arith in
    let opened : fread 4 (a ∷ b ∷ c ∷ d ∷ rest) ≡ some (a ∷ b ∷ c ∷ d ∷ [], rest) =
      fread-append 4 (a ∷ b ∷ c ∷ d ∷ []) rest refl in
    let same = same_number a b c d in
    rw
      (
        opened,
        get_u32_sum a b c d [] pa pb pc,
        long,
        same 0x0a 0x0d 0x0d 0x0a (ground arith),
        same 0xd4 0xc3 0xb2 0xa1 (ground arith),
        same 0xa1 0xb2 0xc3 0xd4 (ground arith),
        same 0x4d 0x3c 0xb2 0xa1 (ground arith),
        same 0xa1 0xb2 0x3c 0x4d (ground arith),
        open_file,
      )
      (answers r (a ∷ b ∷ c ∷ d ∷ rest) _ _)
