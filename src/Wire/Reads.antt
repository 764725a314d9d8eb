-- ===== src/Wire/Reads.antt =====
-- src/helpers.h: reading a number from a place within some bytes.
use mega_feed_handler.Base.{ℕ, ◌+◌, ◌≤◌, List, arith, drop, length, length-drop, All-drop, Succeeds}
use mega_feed_handler.Wire.Bytes.{
  IsBytes, get_u16, get_u32, get_u64, get_u16_in, get_u32_in, get_u64_in,
}

-- What is asked of a value that only has to be there.
abbrev pub Anything : {A : Type 0} → A → Type 0
Anything a = Unit {0}

module _ (packet : List ℕ) (bs : IsBytes packet) where
  pub get_u16_at : (i : ℕ) → i + 2 ≤ length packet → Succeeds Anything (get_u16 (drop i packet))
  get_u16_at i h =
      let (v, read, _, _) =
        get_u16_in (drop i packet) (All-drop _ i packet bs)
          (omega (arith, length-drop {0} i packet)) in
      (v, read, tt)

  pub get_u32_at : (i : ℕ) → i + 4 ≤ length packet → Succeeds Anything (get_u32 (drop i packet))
  get_u32_at i h =
      let (v, read, _, _) =
        get_u32_in (drop i packet) (All-drop _ i packet bs)
          (omega (arith, length-drop {0} i packet)) in
      (v, read, tt)

  pub get_u64_at : (i : ℕ) → i + 8 ≤ length packet → Succeeds Anything (get_u64 (drop i packet))
  get_u64_at i h =
      let (v, read, _, _) =
        get_u64_in (drop i packet) (All-drop _ i packet bs)
          (omega (arith, length-drop {0} i packet)) in
      (v, read, tt)
