-- ===== src/Words/Bits.antt =====
-- `&` with a byte mask and `|` of disjoint fields, as arithmetic.
use Prim.Native.Nat.{bit_and, bit_or, min, max, digits, bitwise, bit_and-bitwise, bit_or-bitwise}
use native.Mathlib.Nat.{pow-suc, mul_comm, div-div-eq-div-mul}
use libujo_c.Base.{
  ℕ, zero, suc, ◌+◌, ◌-◌, ◌*◌, ◌/◌, ◌%◌, ◌^◌, ◌≤◌, ◌<◌, ◌≡◌, refl, sym, ap, ◌∙◌, arith,
}

-- The recursion on fuel that the native operations stand for, at a digit function `f` that is `z`
-- above the first number.
module _ (z : ℕ → ℕ) (f : ℕ → ℕ → ℕ) where
  digits-of_zero : (fuel b : ℕ) → digits z f fuel 0 b ≡ z b
  digits-of_zero zero b = refl
  digits-of_zero (suc fuel) b = refl

  -- Fuel beyond the first number changes nothing.
  digits-more :
      (fuel extra a b : ℕ) → a ≤ fuel → digits z f (fuel + extra) a b ≡ digits z f fuel a b
  digits-more fuel extra zero b h = digits-of_zero (fuel + extra) b ∙ sym (digits-of_zero fuel b)
  digits-more zero extra (suc a) b h = absurd (omega arith)
  digits-more (suc fuel) extra (suc a) b h =
      let next : suc fuel + extra ≡ suc (fuel + extra) = omega arith in
      ap (λ n. digits z f n (suc a) b) next
      ∙ ap (λ t. t * 2 + f (suc a % 2) (b % 2))
          (digits-more fuel extra (suc a / 2) (b / 2) (omega arith))

  half_fuel :
      (a b : ℕ) → digits z f a (suc a / 2) (b / 2) ≡ digits z f (suc a / 2) (suc a / 2) (b / 2)
  half_fuel a b =
      let split : suc a / 2 + (a - suc a / 2) ≡ a = omega arith in
      ap (λ n. digits z f n (suc a / 2) (b / 2)) (sym split)
      ∙ digits-more (suc a / 2) (a - suc a / 2) (suc a / 2) (b / 2) (omega arith)

  bitwise-digit :
      (a b : ℕ)
      → bitwise z f (suc a) b ≡ bitwise z f (suc a / 2) (b / 2) * 2 + f (suc a % 2) (b % 2)
  bitwise-digit a b = ap (λ t. t * 2 + f (suc a % 2) (b % 2)) (half_fuel a b)

-- One equation for the lowest binary digit.
pub bit_or-digit : (a b : ℕ) → bit_or a b ≡ bit_or (a / 2) (b / 2) * 2 + max (a % 2) (b % 2)
bit_or-digit zero b = simp bit_or-bitwise (omega arith)
bit_or-digit (suc a) b = simp bit_or-bitwise (bitwise-digit (λ y. y) max a b)

pub bit_and-digit : (a b : ℕ) → bit_and a b ≡ bit_and (a / 2) (b / 2) * 2 + min (a % 2) (b % 2)
bit_and-digit zero b = simp bit_and-bitwise (omega arith)
bit_and-digit (suc a) b = simp bit_and-bitwise (bitwise-digit (λ y. 0) min a b)

double_power : (m k : ℕ) → m * 2 ^ suc k ≡ 2 * (m * 2 ^ k)
double_power m k = omega (arith, ap (λ (t : ℕ). m * t) (pow-suc 2 k))

div-double_power : (a k : ℕ) → a / 2 ^ suc k ≡ a / 2 / 2 ^ k
div-double_power a k = rw (pow-suc 2 k, mul_comm (2 ^ k) 2) (sym (div-div-eq-div-mul a 2 (2 ^ k)))

-- With 0 on the other side, for numbers up to a bound.
zero_below : (bound a : ℕ) → a ≤ bound → (bit_or a 0 ≡ a) × (bit_and a 0 ≡ 0)
zero_below zero a h = rw (nothing) (refl, refl)
  where
    nothing : a ≡ 0
    nothing = omega arith
zero_below (suc bound) a h =
    let (keeps, clears) = zero_below bound (a / 2) (omega arith) in
    (omega (arith, bit_or-digit a 0, keeps), omega (arith, bit_and-digit a 0, clears))

bit_or-zero : (a : ℕ) → bit_or a 0 ≡ a
bit_or-zero a = (zero_below a a (omega arith)).0

pub bit_and-zero : (a : ℕ) → bit_and a 0 ≡ 0
bit_and-zero a = (zero_below a a (omega arith)).1

-- A mask moved up by k bits sees the number moved down by k bits.
pub bit_and-mask_up : (k a m : ℕ) → bit_and a (m * 2 ^ k) ≡ bit_and (a / 2 ^ k) m * 2 ^ k
bit_and-mask_up zero a m = ground arith
bit_and-mask_up (suc k) a m = ground (
  arith,
  double_power m k,
  double_power (bit_and (a / 2 ^ suc k) m) k,
  bit_and-digit a (m * 2 ^ suc k),
  div-double_power a k,
  bit_and-mask_up k (a / 2) m,
)

-- A number below 2 ^ k fills the k bits under a multiple of 2 ^ k.
pub bit_or-fill : (k q r : ℕ) → r < 2 ^ k → bit_or (q * 2 ^ k) r ≡ q * 2 ^ k + r
bit_or-fill zero q r h = ground (arith, bit_or-zero q)
bit_or-fill (suc k) q r h = ground (
  arith,
  double_power q k,
  pow-suc 2 k,
  bit_or-digit (q * 2 ^ suc k) r,
  bit_or-fill k q (r / 2) (omega (arith, pow-suc 2 k)),
)
