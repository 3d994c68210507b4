-- ===== src/Words/Masks.antt =====
-- `&` with a mask of ones.
use Prim.Native.Nat.{bit_and}
use libujo_c.Base.{ℕ, ◌+◌, ◌*◌, ◌/◌, ◌%◌, ◌^◌, ◌≡◌, ap, ◌∙◌, arith}
use libujo_c.Words.Bits.{bit_and-digit, bit_and-zero}

-- A mask whose lowest bit is set.
pub bit_and-odd : (a m : ℕ) → bit_and a (2 * m + 1) ≡ bit_and (a / 2) m * 2 + a % 2
bit_and-odd a m = ground (arith, bit_and-digit a (2 * m + 1))

pub byte_mask : (a : ℕ) → bit_and a 0xFF ≡ a % 256
byte_mask a = omega (
  arith,
  bit_and-odd a 127,
  bit_and-odd (a / 2) 63,
  bit_and-odd (a / 2 / 2) 31,
  bit_and-odd (a / 2 / 2 / 2) 15,
  bit_and-odd (a / 2 / 2 / 2 / 2) 7,
  bit_and-odd (a / 2 / 2 / 2 / 2 / 2) 3,
  bit_and-odd (a / 2 / 2 / 2 / 2 / 2 / 2) 1,
  bit_and-odd (a / 2 / 2 / 2 / 2 / 2 / 2 / 2) 0,
  bit_and-zero (a / 2 / 2 / 2 / 2 / 2 / 2 / 2 / 2),
)

one_bit : (a m n : ℕ) → n ≡ 2 * m + 1 → bit_and a n ≡ bit_and (a / 2) m * 2 + a % 2
one_bit a m n e = ap (bit_and a) e ∙ bit_and-odd a m

eight_halvings : (a : ℕ) → a / 2 / 2 / 2 / 2 / 2 / 2 / 2 / 2 ≡ a / 256
eight_halvings a = omega arith

-- A mask with eight ones below another.
byte_step : (a m : ℕ) → bit_and a (256 * m + 255) ≡ bit_and (a / 256) m * 256 + a % 256
byte_step a m = omega (
  arith,
  one_bit a (128 * m + 127) (256 * m + 255) (omega arith),
  one_bit (a / 2) (64 * m + 63) (128 * m + 127) (omega arith),
  one_bit (a / 2 / 2) (32 * m + 31) (64 * m + 63) (omega arith),
  one_bit (a / 2 / 2 / 2) (16 * m + 15) (32 * m + 31) (omega arith),
  one_bit (a / 2 / 2 / 2 / 2) (8 * m + 7) (16 * m + 15) (omega arith),
  one_bit (a / 2 / 2 / 2 / 2 / 2) (4 * m + 3) (8 * m + 7) (omega arith),
  one_bit (a / 2 / 2 / 2 / 2 / 2 / 2) (2 * m + 1) (4 * m + 3) (omega arith),
  one_bit (a / 2 / 2 / 2 / 2 / 2 / 2 / 2) m (2 * m + 1) (omega arith),
  ap (λ (t : ℕ). bit_and t m) (eight_halvings a),
)

pub mask_9 : (a : ℕ) → bit_and a 0x1FF ≡ a % 512
mask_9 a = omega (arith, byte_step a 1, bit_and-odd (a / 256) 0, bit_and-zero (a / 256 / 2))

pub mask_10 : (a : ℕ) → bit_and a 0x3FF ≡ a % 1024
mask_10 a = omega (
  arith,
  byte_step a 3,
  bit_and-odd (a / 256) 1,
  bit_and-odd (a / 256 / 2) 0,
  bit_and-zero (a / 256 / 2 / 2),
)

mask_7 : (a : ℕ) → bit_and a 0x7F ≡ a % 128
mask_7 a = omega (
  arith,
  bit_and-odd a 63,
  bit_and-odd (a / 2) 31,
  bit_and-odd (a / 2 / 2) 15,
  bit_and-odd (a / 2 / 2 / 2) 7,
  bit_and-odd (a / 2 / 2 / 2 / 2) 3,
  bit_and-odd (a / 2 / 2 / 2 / 2 / 2) 1,
  bit_and-odd (a / 2 / 2 / 2 / 2 / 2 / 2) 0,
  bit_and-zero (a / 2 / 2 / 2 / 2 / 2 / 2 / 2),
)

pub mask_23 : (a : ℕ) → bit_and a 0x7FFFFF ≡ a % 2 ^ 23
mask_23 a = omega (arith, byte_step a 0x7FFF, byte_step (a / 256) 0x7F, mask_7 (a / 256 / 256))

pub mask_5 : (a : ℕ) → bit_and a 0x1F ≡ a % 32
mask_5 a = omega (
  arith,
  bit_and-odd a 15,
  bit_and-odd (a / 2) 7,
  bit_and-odd (a / 2 / 2) 3,
  bit_and-odd (a / 2 / 2 / 2) 1,
  bit_and-odd (a / 2 / 2 / 2 / 2) 0,
  bit_and-zero (a / 2 / 2 / 2 / 2 / 2),
)
