-- ===== src/Capture/Times.antt =====
-- src/pcapng_reader.h: ticks in the resolution of an interface are turned into nanoseconds.
use Prim.Native.Nat.{bit_and}
use native.Mathlib.Nat.{mul-le-mul, pow-le-pow_right}
use mega_feed_handler.Base.{
  ℕ, ◌-◌, ◌*◌, ◌/◌, ◌%◌, ◌^◌, ◌<◌, ◌≤◌, ◌≡◌, ◌⊎◌, inl, inr, refl, ap, ◌∙◌, Bool, true, false, not,
  arith, ltb, leb, ◌==◌, if◌then◌else◌, List, [], ◌∷◌, some, All,
}
use mega_feed_handler.Base.Bits.{bit_and_seven, bit_and_top}
use mega_feed_handler.Capture.Defs.{InterfaceInfo, PcapngReader}
use mega_feed_handler.Capture.Blocks.{set_resolution, ticks_to_ns}
use mega_feed_handler.Capture.Interfaces.{pow10_lem}
use mega_feed_handler.Capture.Encode.{Frame, IsStored, store_capture}
use mega_feed_handler.Capture.BlockTrip.{stored_interface}
use mega_feed_handler.Capture.Yields.{Yields, payloads_of, store_capture-Yields}

-- A tick is `10 ^ -resolution` seconds, or `2 ^ -(resolution - 128)` when the top bit is set.
abbrev pub nanoseconds : ℕ → ℕ → ℕ
nanoseconds resolution ticks =
    if ltb resolution 128
    then ticks * 10 ^ (9 - resolution)
    else ticks * 1_000_000_000 / 2 ^ (resolution - 128)

-- The resolutions that the reader follows.
abbrev pub IsResolution : ℕ → Type 0
IsResolution resolution = (resolution ≤ 9) ⊎ ((128 ≤ resolution) × (resolution < 192))

ticks_to_ns-fits :
    (info : InterfaceInfo) (ticks : ℕ)
    → ticks < 2 ^ 64
    → info.ns_multiplier ≤ 1_000_000_000
    → ticks * info.ns_multiplier / info.ns_divisor < 2 ^ 64
    → ticks_to_ns info ticks ≡ ticks * info.ns_multiplier / info.ns_divisor
unfolding ticks_to_ns
ticks_to_ns-fits info ticks h small fits =
    let product : ticks * info.ns_multiplier ≤ 2 ^ 64 * 1_000_000_000 =
      mul-le-mul {n₁ = ticks} {m₁ = info.ns_multiplier} {n₂ = 2 ^ 64} {m₂ = 1_000_000_000}
        (omega (arith, h)) small in
    let whole : (ticks * info.ns_multiplier) % 2 ^ 128 ≡ ticks * info.ns_multiplier =
      omega (arith, product) in
    rw whole (omega (arith, fits))

stored_decimal :
    (link_type resolution : ℕ)
    → resolution ≤ 9
    → stored_interface link_type resolution
      ≡ record { link_type = link_type; ns_multiplier = 10 ^ (9 - resolution); ns_divisor = 1 }
unfolding stored_interface set_resolution
stored_decimal link_type resolution h =
    let clear : not (bit_and resolution 0x80 == 0) ≡ false =
      ground (arith, bit_and_top resolution) in
    let exponent : bit_and resolution 0x7f ≡ resolution =
      bit_and_seven resolution ∙ omega (arith, h) in
    let small : leb resolution 9 ≡ true = ground (arith, h) in
    rw (clear, exponent, small, pow10_lem (9 - resolution) (omega arith)) refl

stored_binary :
    (link_type resolution : ℕ)
    → 128 ≤ resolution
    → resolution < 192
    → stored_interface link_type resolution ≡ record {
      link_type = link_type;
      ns_multiplier = 1_000_000_000;
      ns_divisor = 2 ^ (resolution - 128);
    }
unfolding stored_interface set_resolution
stored_binary link_type resolution h l =
    let top : not (bit_and resolution 0x80 == 0) ≡ true = ground (arith, bit_and_top resolution) in
    let exponent : bit_and resolution 0x7f ≡ resolution - 128 =
      bit_and_seven resolution ∙ omega (arith, h, l) in
    let one : 1 * 2 ^ (resolution - 128) ≡ 2 ^ (resolution - 128) = omega arith in
    let small : ltb (resolution - 128) 64 ≡ true = ground (arith, l) in
    rw (top, exponent, small) (simp one)

pub ticks_to_ns_lem :
    (link_type resolution ticks : ℕ)
    → IsResolution resolution
    → ticks < 2 ^ 64
    → nanoseconds resolution ticks < 2 ^ 64
    → ticks_to_ns (stored_interface link_type resolution) ticks ≡ nanoseconds resolution ticks
ticks_to_ns_lem link_type resolution ticks (inl decimal) h fits =
    let power : ℕ = 10 ^ (9 - resolution) in
    let below : ltb resolution 128 ≡ true = ground (arith, decimal) in
    let fits' : ticks * power < 2 ^ 64 = rw below at fits in
    let whole : ticks * power / 1 ≡ ticks * power = omega arith in
    let power_le : power ≤ 1_000_000_000 =
      pow-le-pow_right {n = 10} (omega arith) {i = 9 - resolution} {j = 9} (omega arith) in
    rw (stored_decimal link_type resolution decimal, below)
      (ticks_to_ns-fits _ ticks h power_le (omega (arith, whole, fits')) ∙ whole)
ticks_to_ns_lem link_type resolution ticks (inr (binary, l)) h fits =
    let above : ltb resolution 128 ≡ false = ground (arith, binary) in
    rw (stored_binary link_type resolution binary l, above)
      (ticks_to_ns-fits _ ticks h (omega arith) (rw above at fits))

-- What a capture holds: each payload with its time in nanoseconds.
abbrev pub captured : ℕ → List (ℕ × Frame) → List (List ℕ × ℕ)
captured resolution [] = []
captured resolution ((ticks, f) ∷ packets) =
    (f.payload, nanoseconds resolution ticks) ∷ captured resolution packets

-- The frames fit into blocks and the times into 64 bits, in ticks and in nanoseconds.
abbrev pub IsTimed : ℕ → ℕ × Frame → Type 0
IsTimed resolution (ticks, f) = IsStored (ticks, f) × (nanoseconds resolution ticks < 2 ^ 64)

captured_lem :
    (resolution : ℕ) (packets : List (ℕ × Frame))
    → IsResolution resolution
    → All (IsTimed resolution) packets
    → payloads_of (stored_interface 1 resolution) packets ≡ captured resolution packets
captured_lem resolution [] known good = refl
captured_lem resolution ((ticks, f) ∷ packets) known (((frame, size, time), fits), good) =
    rw (ticks_to_ns_lem 1 resolution ticks known time fits) (
      ap (◌∷◌ (f.payload, nanoseconds resolution ticks))
        (captured_lem resolution packets known good))

all-IsStored :
    (resolution : ℕ) (packets : List (ℕ × Frame))
    → All (IsTimed resolution) packets
    → All IsStored packets
all-IsStored resolution [] good = tt
all-IsStored resolution ((ticks, f) ∷ packets) (timed, good) =
    (timed.0, all-IsStored resolution packets good)

-- A capture in either byte order is read as what was written into it: every payload, in order,
-- with its time.
pub capture_trip :
    (swapped : Bool) (snap_length resolution : ℕ) (packets : List (ℕ × Frame))
    → IsResolution resolution
    → All (IsTimed resolution) packets
    → (r : PcapngReader) → r.file ≡ some (store_capture swapped snap_length resolution packets)
    → Yields r (captured resolution packets)
capture_trip swapped snap_length resolution packets known good r is_file =
    rw⁻¹ (captured_lem resolution packets known good) (
      store_capture-Yields swapped snap_length resolution packets
        (all-IsStored resolution packets good) r is_file)
