-- ===== src/Base/Bits.antt =====
-- `|` of disjoint fields is a sum, at every width: the native operations mean a recursion on
-- binary digits with fuel, and here the fuel is dropped.
use Prim.Native.Nat.{
  ℕ, zero, suc, ◌+◌, ◌-◌, ◌*◌, ◌/◌, ◌%◌, ◌^◌, ◌≤◌, ◌<◌, min, max, digits, bitwise,
}
use Prim.Native.Nat.{bit_or, bit_and, bit_or-bitwise, bit_and-bitwise}
use mathlib.Core.Path.{◌≡◌, refl, ap, sym, ◌∙◌}
use native.Mathlib.Nat.{pow-suc, div-div-eq-div-mul}
use native.Mathlib.Omega.{arith}

-- `x << k` and `x >> k`
infixl 75 ◌<<<◌ ◌>>>◌
abbrev pub ◌<<<◌ : ℕ → ℕ → ℕ
x <<< k = x * 2 ^ k

abbrev pub ◌>>>◌ : ℕ → ℕ → ℕ
x >>> k = x / 2 ^ k

abbrev pub u8 : ℕ → ℕ
u8 n = n % 2 ^ 8

abbrev pub u16 : ℕ → ℕ
u16 n = n % 2 ^ 16

abbrev pub u32 : ℕ → ℕ
u32 n = n % 2 ^ 32

abbrev pub u64 : ℕ → ℕ
u64 n = n % 2 ^ 64

-- unsigned subtraction at 64 bits
abbrev pub sub64 : ℕ → ℕ → ℕ
sub64 a b = u64 (a + 2 ^ 64 - b)

-- A bitwise operation `op` as the recursion on digits that it stands for.
module _ (op : ℕ → ℕ → ℕ) (z : ℕ → ℕ) (f : ℕ → ℕ → ℕ)
    (means : (a b : ℕ) → op a b ≡ bitwise z f a b) where
  -- More fuel changes nothing: one unit first, then any.
  spare_unit : (n a b : ℕ) → a ≤ n → digits z f (suc n) a b ≡ digits z f n a b
  spare_unit zero zero b h = refl
  spare_unit (suc n) zero b h = refl
  spare_unit zero (suc a) b h = absurd (omega (arith, h))
  spare_unit (suc n) (suc a) b h =
      ap (λ rest. rest * 2 + f (suc a % 2) (b % 2))
        (spare_unit n (suc a / 2) (b / 2) (omega (arith, h)))

  spare : (more n a b : ℕ) → a ≤ n → digits z f (more + n) a b ≡ digits z f n a b
  spare zero n a b h = ap (λ m. digits z f m a b) {x = 0 + n} {y = n} (omega arith)
  spare (suc more) n a b h =
      ap (λ m. digits z f m a b) {x = suc more + n} {y = suc (more + n)} (omega arith)
      ∙ (spare_unit (more + n) a b (omega (arith, h)) ∙ spare more n a b h)

  -- The digit at the bottom, and the operation above it.
  bottom_digit : (a b : ℕ) → op (suc a) b ≡ op (suc a / 2) (b / 2) * 2 + f (suc a % 2) (b % 2)
  bottom_digit a b =
      let half : ℕ = suc a / 2 in
      let fuel : a ≡ (a - half) + half = omega arith in
      means (suc a) b
      ∙ ap (λ rest. rest * 2 + f (suc a % 2) (b % 2))
          (ap (λ m. digits z f m half (b / 2)) fuel
            ∙ (spare (a - half) half half (b / 2) (omega arith) ∙ sym (means half (b / 2))))

-- The two operations, with nothing left in the first number as well.
or_nothing : (b : ℕ) → bit_or 0 b ≡ b
or_nothing = bit_or-bitwise 0

and_nothing : (b : ℕ) → bit_and 0 b ≡ 0
and_nothing = bit_and-bitwise 0

or_digit : (a b : ℕ) → bit_or a b ≡ max (a % 2) (b % 2) + 2 * bit_or (a / 2) (b / 2)
or_digit zero b = omega (arith, or_nothing b, or_nothing (b / 2))
or_digit (suc a) b = omega (arith, bottom_digit bit_or (λ y. y) max bit_or-bitwise a b)

and_digit : (a b : ℕ) → bit_and a b ≡ min (a % 2) (b % 2) + 2 * bit_and (a / 2) (b / 2)
and_digit zero b = omega (arith, and_nothing b, and_nothing (b / 2))
and_digit (suc a) b = omega (arith, bottom_digit bit_and (λ y. 0) min bit_and-bitwise a b)

-- No bit passes an empty mask; `bound` is for the recursion on halves.
and_empty : (bound a : ℕ) → a ≤ bound → bit_and a 0 ≡ 0
and_empty bound zero h = and_nothing 0
and_empty zero (suc a) h = absurd (omega (arith, h))
and_empty (suc bound) (suc a) h =
    omega (arith, and_digit (suc a) 0, and_empty bound (suc a / 2) (omega (arith, h)))

and_three : (a : ℕ) → bit_and a 3 ≡ a % 4
and_three a =
    let rest = a / 2 / 2 in
    omega (arith, and_digit a 3, and_digit (a / 2) 1, and_empty rest rest (omega arith))

pub bit_and_fifteen : (a : ℕ) → bit_and a 15 ≡ a % 16
bit_and_fifteen a = omega (arith, and_digit a 15, and_digit (a / 2) 7, and_three (a / 2 / 2))

and_sixty_three : (a : ℕ) → bit_and a 63 ≡ a % 64
and_sixty_three a = omega (arith, and_digit a 63, and_digit (a / 2) 31, bit_and_fifteen (a / 2 / 2))

-- The low seven bits of a byte, and the bit above them.
pub bit_and_seven : (a : ℕ) → bit_and a 0x7f ≡ a % 128
bit_and_seven a = omega (arith, and_digit a 127, and_sixty_three (a / 2))

and_one : (a : ℕ) → bit_and a 1 ≡ a % 2
and_one a = omega (arith, and_digit a 1, and_empty (a / 2) (a / 2) (omega arith))

-- `a & 0xff` is the low byte.
pub bit_and_byte : (a : ℕ) → bit_and a 0xff ≡ a % 256
bit_and_byte a = omega (arith, and_digit a 255, and_digit (a / 2) 127, and_sixty_three (a / 2 / 2))

-- A mask of `k` zero digits below `mask` reads the digits above those.
pub bit_and_shifted : (k a mask : ℕ) → bit_and a (mask * 2 ^ k) ≡ bit_and (a / 2 ^ k) mask * 2 ^ k
bit_and_shifted zero a mask =
    let same : mask * 2 ^ 0 ≡ mask = omega arith in
    let whole : a / 2 ^ 0 ≡ a = omega arith in
    omega (arith, ap (bit_and a) same, ap (λ t. bit_and t mask) whole)
bit_and_shifted (suc k) a mask =
    let twice : mask * 2 ^ suc k ≡ 2 * (mask * 2 ^ k) =
      omega (arith, ap (λ (t : ℕ). mask * t) (pow-suc 2 k)) in
    let half : (mask * 2 ^ suc k) / 2 ≡ mask * 2 ^ k = omega (arith, twice) in
    let below : a / 2 / 2 ^ k ≡ a / 2 ^ suc k =
      div-div-eq-div-mul a 2 (2 ^ k) ∙ ap (◌/◌ a) (omega (arith, pow-suc 2 k)) in
    let upper : bit_and (a / 2) ((mask * 2 ^ suc k) / 2) ≡ bit_and (a / 2 ^ suc k) mask * 2 ^ k =
      ap (bit_and (a / 2)) half
      ∙ (bit_and_shifted k (a / 2) mask ∙ ap (λ t. bit_and t mask * 2 ^ k) below) in
    let again : bit_and (a / 2 ^ suc k) mask * 2 ^ suc k
        ≡ 2 * (bit_and (a / 2 ^ suc k) mask * 2 ^ k) =
      omega (arith, ap (λ (t : ℕ). bit_and (a / 2 ^ suc k) mask * t) (pow-suc 2 k)) in
    omega (arith, and_digit a (mask * 2 ^ suc k), twice, upper, again)

-- `low | (high << k)` is a sum when `low` fits `k` bits.
pub bit_or_fields : (k low high : ℕ) → low < 2 ^ k → bit_or low (high <<< k) ≡ low + high * 2 ^ k
bit_or_fields zero zero high h = or_nothing (high <<< 0) ∙ omega arith
bit_or_fields zero (suc low) high h = absurd (omega (arith, h))
bit_or_fields (suc k) low high h =
    let shifted : high <<< suc k ≡ 2 * (high <<< k) =
      omega (arith, ap (λ (t : ℕ). high * t) (pow-suc 2 k)) in
    let upper : (high <<< suc k) / 2 ≡ high <<< k = omega (arith, shifted) in
    omega (
      arith,
      shifted,
      or_digit low (high <<< suc k),
      ap (bit_or (low / 2)) upper,
      bit_or_fields k (low / 2) high (omega (arith, h, pow-suc 2 k)),
    )

-- `a | b` is `b | a`; `bound` is for the recursion on halves.
or_swap : (bound a b : ℕ) → a + b ≤ bound → bit_or a b ≡ bit_or b a
or_swap zero zero zero h = refl
or_swap zero (suc a) b h = absurd (omega (arith, h))
or_swap zero zero (suc b) h = absurd (omega (arith, h))
or_swap (suc bound) a b h =
    let rest : a / 2 + b / 2 ≤ bound = omega (arith, h) in
    omega (arith, or_digit a b, or_digit b a, or_swap bound (a / 2) (b / 2) rest)

-- `(high << k) | low`
pub bit_or_low : (k high low : ℕ) → low < 2 ^ k → bit_or (high <<< k) low ≡ low + high * 2 ^ k
bit_or_low k high low h =
    or_swap ((high <<< k) + low) (high <<< k) low (omega arith) ∙ bit_or_fields k low high h

pub bit_and_top : (a : ℕ) → bit_and a 0x80 ≡ a / 128 % 2 * 128
bit_and_top a = bit_and_shifted 7 a 1 ∙ ap (λ t. t * 128) (and_one (a / 128))
