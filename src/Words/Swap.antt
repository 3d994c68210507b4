-- ===== src/Words/Swap.antt =====
-- The swaps of src/ujo_endian.h reverse the bytes of an integer.
use Prim.Native.Nat.{bit_and, bit_or}
use mathlib.Core.Path.{ap₂}
use mathlib.Core.List.{reverse}
use native.Mathlib.Nat.{div-div-eq-div-mul, div-one, mod-lt, one-le-pow}
use native.Mathlib.Numerals.{towards_suc}
use libujo_c.Base.{
  ℕ, zero, suc, ◌+◌, ◌*◌, ◌/◌, ◌%◌, ◌^◌, ◌<◌, ◌≡◌, refl, sym, ap, ◌∙◌, arith, List, [], ◌∷◌,
}
use libujo_c.Words.{swap_uint16, swap_uint32, swap_uint64, low_bytes}
use libujo_c.Words.Bits.{bit_and-mask_up, bit_or-fill}
use libujo_c.Words.Masks.{byte_mask}

-- The byte of `v` that stands k bits up, in its place.
masked : (k v : ℕ) → bit_and v (0xFF * 2 ^ k) ≡ v / 2 ^ k % 256 * 2 ^ k
masked k v = bit_and-mask_up k v 0xFF ∙ ap (λ t. t * 2 ^ k) (byte_mask (v / 2 ^ k))

power_eight : (k : ℕ) → 2 ^ (k + 8) ≡ 256 * 2 ^ k
power_eight k = simp towards_suc (omega arith)

-- `|` of one more byte under the bytes `q`.
or_byte : (k q x : ℕ) → x < 256 → bit_or (q * 2 ^ (k + 8)) (x * 2 ^ k) ≡ (q * 256 + x) * 2 ^ k
or_byte k q x h = bit_or-fill (k + 8) q (x * 2 ^ k) below ∙ sum
  where
    below : x * 2 ^ k < 2 ^ (k + 8)
    below = rw (power_eight k) (grind (arith, one-le-pow k 2))

    sum : q * 2 ^ (k + 8) + x * 2 ^ k ≡ (q * 256 + x) * 2 ^ k
    sum = omega (arith, ap (λ (t : ℕ). q * t) (power_eight k))

abbrev byte : ℕ → ℕ → ℕ
byte v i = v / 2 ^ (8 * i) % 256

byte-lt : (v i : ℕ) → byte v i < 256
byte-lt v i = mod-lt (v / 2 ^ (8 * i)) (omega arith)

swap_uint16_lem : (v : ℕ) → swap_uint16 v ≡ byte v 0 * 256 + byte v 1
unfolding swap_uint16
swap_uint16_lem v =
    ap (λ t. t % 2 ^ 16) (ap₂ bit_or first second ∙ or_byte 0 (byte v 0) (byte v 1) (byte-lt v 1))
    ∙ omega (arith, byte-lt v 0, byte-lt v 1)
  where
    first : bit_and v 0x00FF * 2 ^ 8 ≡ byte v 0 * 2 ^ 8
    first = omega (arith, byte_mask v)

    second : bit_and v 0xFF00 / 2 ^ 8 ≡ byte v 1 * 2 ^ 0
    second = omega (arith, masked 8 v)

module _ (v : ℕ) where
  mask0 : bit_and v 0xFF ≡ byte v 0
  mask0 = byte_mask v ∙ omega arith

  -- The terms of the 32 bit swap.
  or32 :
      swap_uint32 v
      ≡ bit_or
          (bit_or (bit_or (byte v 0 * 2 ^ 24) (byte v 1 * 2 ^ 16)) (byte v 2 * 2 ^ 8))
          (byte v 3 * 2 ^ 0)
  unfolding swap_uint32
  or32 =
      ap₂ bit_or
        (ap₂ bit_or
          (ap₂ bit_or (omega (arith, mask0, byte-lt v 0)) (omega (arith, masked 8 v, byte-lt v 1)))
          (omega (arith, masked 16 v)))
        (omega (arith, masked 24 v))

  swap_uint32_lem : swap_uint32 v ≡ ((byte v 0 * 256 + byte v 1) * 256 + byte v 2) * 256 + byte v 3
  swap_uint32_lem =
      rw
        (
          or32,
          or_byte 16 (byte v 0) (byte v 1) (byte-lt v 1),
          or_byte 8 _ (byte v 2) (byte-lt v 2),
          or_byte 0 _ (byte v 3) (byte-lt v 3),
        )
        (omega arith)

  -- The terms of the 64 bit swap: those moved up, and those moved down.
  abbrev high : ℕ
  high =
      bit_or (bit_or (bit_or (byte v 0 * 2 ^ 56) (byte v 1 * 2 ^ 48)) (byte v 2 * 2 ^ 40))
        (byte v 3 * 2 ^ 32)

  abbrev low_onto : ℕ → ℕ
  low_onto h =
      bit_or (bit_or (bit_or (bit_or h (byte v 4 * 2 ^ 24)) (byte v 5 * 2 ^ 16)) (byte v 6 * 2 ^ 8))
        (byte v 7 * 2 ^ 0)

  or64_high :
      bit_or
        (bit_or
          (bit_or (bit_and v 0xFF * 2 ^ 56 % 2 ^ 64) (bit_and v 0xFF00 * 2 ^ 40 % 2 ^ 64))
          (bit_and v 0xFF0000 * 2 ^ 24 % 2 ^ 64))
        (bit_and v 0xFF000000 * 2 ^ 8 % 2 ^ 64)
      ≡ high
  or64_high =
      ap₂ bit_or
        (ap₂ bit_or
          (ap₂ bit_or (omega (arith, mask0, byte-lt v 0)) (omega (arith, masked 8 v, byte-lt v 1)))
          (omega (arith, masked 16 v, byte-lt v 2)))
        (omega (arith, masked 24 v, byte-lt v 3))

  or64 : swap_uint64 v ≡ low_onto high
  unfolding swap_uint64
  or64 =
      ap₂ bit_or
        (ap₂ bit_or
          (ap₂ bit_or (ap₂ bit_or or64_high (omega (arith, masked 32 v)))
            (omega (arith, masked 40 v)))
          (omega (arith, masked 48 v)))
        (omega (arith, masked 56 v))

  high_lem : high ≡ (((byte v 0 * 256 + byte v 1) * 256 + byte v 2) * 256 + byte v 3) * 2 ^ 32
  high_lem = rw (
    or_byte 48 (byte v 0) (byte v 1) (byte-lt v 1),
    or_byte 40 _ (byte v 2) (byte-lt v 2),
    or_byte 32 _ (byte v 3) (byte-lt v 3),
  )

  low_onto_lem :
      (q : ℕ)
      → low_onto (q * 2 ^ 32)
        ≡ (((q * 256 + byte v 4) * 256 + byte v 5) * 256 + byte v 6) * 256 + byte v 7
  low_onto_lem q =
      rw
        (
          or_byte 24 q (byte v 4) (byte-lt v 4),
          or_byte 16 _ (byte v 5) (byte-lt v 5),
          or_byte 8 _ (byte v 6) (byte-lt v 6),
          or_byte 0 _ (byte v 7) (byte-lt v 7),
        )
        (omega arith)

-- The lowest byte of a number that is put together from bytes.
low_bytes-push : (k q x : ℕ) → x < 256 → low_bytes (suc k) (q * 256 + x) ≡ x ∷ low_bytes k q
unfolding low_bytes
low_bytes-push k q x h = ap₂ (λ y z. y ∷ low_bytes k z) (omega arith) (omega arith)

-- k bytes of a number from byte i on.
abbrev bytes_from : ℕ → ℕ → ℕ → List ℕ
bytes_from zero i v = []
bytes_from (suc k) i v = byte v i ∷ bytes_from k (suc i) v

next_byte : (i v : ℕ) → v / 2 ^ (8 * i) / 256 ≡ v / 2 ^ (8 * suc i)
next_byte i v = div-div-eq-div-mul v (2 ^ (8 * i)) 256 ∙ ap (λ t. v / t) power
  where
    power : 2 ^ (8 * i) * 256 ≡ 2 ^ (8 * suc i)
    power = omega (arith, power_eight (8 * i), ap (λ (t : ℕ). 2 ^ t) eight)
      where
        eight : 8 * suc i ≡ 8 * i + 8
        eight = omega arith

low_bytes-at : (k i v : ℕ) → low_bytes k (v / 2 ^ (8 * i)) ≡ bytes_from k i v
unfolding low_bytes
low_bytes-at zero i v = refl
low_bytes-at (suc k) i v =
    ap (◌∷◌ (byte v i)) (ap (low_bytes k) (next_byte i v) ∙ low_bytes-at k (suc i) v)

low_bytes-bytes_from : (k v : ℕ) → low_bytes k v ≡ bytes_from k 0 v
low_bytes-bytes_from k v = ap (low_bytes k) (sym (div-one v)) ∙ low_bytes-at k 0 v

low_bytes-one : (x : ℕ) → x < 256 → low_bytes 1 x ≡ x ∷ []
unfolding low_bytes
low_bytes-one x h = ap (λ y. y ∷ []) (omega arith)

-- `ujo_uint16_swap` reverses the two bytes of an integer.
pub swap_uint16-reverse : (v : ℕ) → low_bytes 2 (swap_uint16 v) ≡ reverse (low_bytes 2 v)
swap_uint16-reverse v =
    rw (swap_uint16_lem v, low_bytes-bytes_from 2 v, low_bytes-push 1 _ (byte v 1) (byte-lt v 1))
      (ap (◌∷◌ (byte v 1)) (low_bytes-one (byte v 0) (byte-lt v 0)))

-- `ujo_uint32_swap` reverses the four bytes of an integer.
pub swap_uint32-reverse : (v : ℕ) → low_bytes 4 (swap_uint32 v) ≡ reverse (low_bytes 4 v)
swap_uint32-reverse v = rw (
  swap_uint32_lem v,
  low_bytes-bytes_from 4 v,
  low_bytes-push 3 _ (byte v 3) (byte-lt v 3),
  low_bytes-push 2 _ (byte v 2) (byte-lt v 2),
  low_bytes-push 1 _ (byte v 1) (byte-lt v 1),
  low_bytes-one (byte v 0) (byte-lt v 0),
)

-- `ujo_uint64_swap` reverses the eight bytes of an integer.
pub swap_uint64-reverse : (v : ℕ) → low_bytes 8 (swap_uint64 v) ≡ reverse (low_bytes 8 v)
swap_uint64-reverse v = rw (
  or64 v,
  high_lem v,
  low_onto_lem v _,
  low_bytes-bytes_from 8 v,
  low_bytes-push 7 _ (byte v 7) (byte-lt v 7),
  low_bytes-push 6 _ (byte v 6) (byte-lt v 6),
  low_bytes-push 5 _ (byte v 5) (byte-lt v 5),
  low_bytes-push 4 _ (byte v 4) (byte-lt v 4),
  low_bytes-push 3 _ (byte v 3) (byte-lt v 3),
  low_bytes-push 2 _ (byte v 2) (byte-lt v 2),
  low_bytes-push 1 _ (byte v 1) (byte-lt v 1),
  low_bytes-one (byte v 0) (byte-lt v 0),
)

-- No swap leaves its width.
pub swap_uint16-lt : (v : ℕ) → swap_uint16 v < 256 ^ 2
unfolding swap_uint16
swap_uint16-lt v = omega arith

pub swap_uint32-lt : (v : ℕ) → swap_uint32 v < 256 ^ 4
swap_uint32-lt v =
    rw (swap_uint32_lem v) (omega (arith, byte-lt v 0, byte-lt v 1, byte-lt v 2, byte-lt v 3))

swap_uint64_lem :
    (v h : ℕ)
    → h ≡ ((byte v 0 * 256 + byte v 1) * 256 + byte v 2) * 256 + byte v 3
    → swap_uint64 v ≡ (((h * 256 + byte v 4) * 256 + byte v 5) * 256 + byte v 6) * 256 + byte v 7
swap_uint64_lem v h e =
    or64 v ∙ ap (low_onto v) (high_lem v ∙ ap (λ t. t * 2 ^ 32) (sym e)) ∙ low_onto_lem v h

pub swap_uint64-lt : (v : ℕ) → swap_uint64 v < 256 ^ 8
swap_uint64-lt v = omega (
  arith,
  swap_uint64_lem v _ refl,
  byte-lt v 0,
  byte-lt v 1,
  byte-lt v 2,
  byte-lt v 3,
  byte-lt v 4,
  byte-lt v 5,
  byte-lt v 6,
  byte-lt v 7,
)
