-- ===== src/Capture/Interfaces.antt =====
-- src/pcapng_reader.h: the interfaces a section declares, and the time resolution of each.
use Prim.Native.Nat.{bit_and}
use native.Mathlib.Nat.{pow-suc, pow-le-pow_right}
use mega_feed_handler.Base.{
  ℕ, zero, suc, ◌+◌, ◌-◌, ◌^◌, ◌<◌, ◌≤◌, ◌≡◌, refl, Bool, not, ◌&&◌, List, arith, ltb, leb, ◌==◌,
  length, if_cases, Succeeds, succeeds, Succeeds->>=, get_elem?_at,
}
use mega_feed_handler.Wire.Bytes.{IsBytes}
use mega_feed_handler.Capture.Order.{u16_at}
use mega_feed_handler.Capture.Defs.{InterfaceInfo}
use mega_feed_handler.Capture.Blocks.{pow10_loop, pow10, set_resolution, read_option, read_options}

-- The numbers of an interface: no division by zero, and no product of a 64-bit number that
-- leaves 128 bits.
pub record IsInterface (info : InterfaceInfo) : Type 0 where
  pub multiplier_le : info.ns_multiplier ≤ 1_000_000_000
  pub divisor_pos : 0 < info.ns_divisor

-- `pow10` is the power, for each exponent that it is called with.
pub pow10_lem : (n : ℕ) → n ≤ 9 → pow10 n ≡ 10 ^ n
unfolding pow10 pow10_loop
pow10_lem zero h = refl
pow10_lem (suc zero) h = refl
pow10_lem (suc (suc zero)) h = refl
pow10_lem (suc (suc (suc zero))) h = refl
pow10_lem (suc (suc (suc (suc zero)))) h = refl
pow10_lem (suc (suc (suc (suc (suc zero))))) h = refl
pow10_lem (suc (suc (suc (suc (suc (suc zero)))))) h = refl
pow10_lem (suc (suc (suc (suc (suc (suc (suc zero))))))) h = refl
pow10_lem (suc (suc (suc (suc (suc (suc (suc (suc zero)))))))) h = refl
pow10_lem (suc (suc (suc (suc (suc (suc (suc (suc (suc zero))))))))) h = refl
pow10_lem (suc (suc (suc (suc (suc (suc (suc (suc (suc (suc n)))))))))) h = absurd (omega arith)

pow10-le : (n : ℕ) → n ≤ 9 → pow10 n ≤ 1_000_000_000
pow10-le n h = rw (pow10_lem n h) (pow-le-pow_right {n = 10} (omega arith) {i = n} {j = 9} h)

power_pos : (n : ℕ) → 0 < 2 ^ n
power_pos zero = omega arith
power_pos (suc n) = omega (arith, pow-suc 2 n, power_pos n)

pub set_resolution-IsInterface :
    (resolution : ℕ) {info : InterfaceInfo}
    → IsInterface info
    → IsInterface (set_resolution resolution info)
unfolding set_resolution
set_resolution-IsInterface resolution good =
    let exponent = bit_and resolution 0x7f in
    if_cases IsInterface (not (bit_and resolution 0x80 == 0))
      (λ binary.
        if_cases IsInterface (ltb exponent 64)
          (λ small. record {
            multiplier_le = omega arith;
            divisor_pos = omega (arith, power_pos exponent);
          })
          (λ _. good))
      (λ decimal.
        if_cases IsInterface (leb exponent 9)
          (λ small. record {
            multiplier_le = pow10-le (9 - exponent) (omega arith);
            divisor_pos = omega arith;
          })
          (λ _. good))

-- Reading an option, and all of them: within the body, and to an interface as above.
module _ (swapped : Bool) (body : List ℕ) (bs : IsBytes body) (option_end : ℕ)
    (inside : option_end ≤ length body) where
  read_option_in :
      (offset code size : ℕ) {info : InterfaceInfo}
      → IsInterface info
      → Succeeds IsInterface (read_option body option_end offset code size info)
  unfolding read_option
  read_option_in offset code size {info} good =
      if_cases (Succeeds IsInterface) (code == 9 && leb 1 size && ltb (offset + 4) option_end)
        (λ is_resolution.
          Succeeds->>= (get_elem?_at body (offset + 4) (ground arith))
            (λ byte _. succeeds (set_resolution-IsInterface byte good)))
        (λ _. succeeds good)

  pub read_options_in :
      (fuel offset : ℕ) {info : InterfaceInfo}
      → IsInterface info
      → 0 < fuel
      → option_end < fuel + offset
      → Succeeds IsInterface (read_options fuel swapped body option_end offset info)
  unfolding read_options
  read_options_in zero offset good some_fuel enough = absurd (omega arith)
  read_options_in (suc fuel) offset {info} good some_fuel enough =
      if_cases (Succeeds IsInterface) (leb (offset + 4) option_end)
        (λ room. Succeeds->>= (u16_at swapped body bs offset (ground arith)) (λ code _.
          Succeeds->>= (u16_at swapped body bs (offset + 2) (ground arith)) (λ size _.
            if_cases (Succeeds IsInterface) (code == 0) (λ _. succeeds good)
              (λ _. Succeeds->>= (read_option_in offset code size good) (λ info' good'.
                read_options_in fuel (offset + (4 + bit_and (size + 3) 0xfffffffc)) good'
                  (ground arith) (ground arith))))))
        (λ _. succeeds good)
