-- ===== src/Words/Bytes.antt =====
-- Integers in memory and in a document: with the swap macros of src/ujo_endian.h a document holds
-- the bytes of an integer lowest first, on a platform of either byte order.
use mathlib.Core.List.{reverse, reverse-reverse}
use native.Mathlib.Nat.{pow-suc}
use libujo_c.Base.{
  ℕ, zero, suc, ◌/◌, ◌^◌, ◌<◌, ◌≡◌, refl, sym, ap, ◌∙◌, arith, length, length-reverse,
}
use libujo_c.Platform.{Endian, little, big}
use libujo_c.Words.{
  swap_uint16, swap_uint32, swap_uint64, uint16_swap, uint32_swap, uint64_swap, low_bytes,
  from_low_bytes, memory_bytes, from_memory,
}
use libujo_c.Words.Swap.{
  swap_uint16-reverse, swap_uint32-reverse, swap_uint64-reverse, swap_uint16-lt, swap_uint32-lt,
  swap_uint64-lt,
}

pub length-low_bytes : (k x : ℕ) → length (low_bytes k x) ≡ k
unfolding low_bytes
length-low_bytes zero x = refl
length-low_bytes (suc k) x = ap suc (length-low_bytes k (x / 256))

pub from_low_bytes-low_bytes : (k x : ℕ) → x < 256 ^ k → from_low_bytes (low_bytes k x) ≡ x
unfolding low_bytes from_low_bytes
from_low_bytes-low_bytes zero x h = omega arith
from_low_bytes-low_bytes (suc k) x h =
    omega (arith, from_low_bytes-low_bytes k (x / 256) (omega (arith, pow-suc 256 k)))

-- A swap that reverses the k bytes of an integer and stays within the width.
module _ (k : ℕ) (swap : ℕ → ℕ)
    (reverses : (v : ℕ) → low_bytes k (swap v) ≡ reverse (low_bytes k v))
    (stays : (v : ℕ) → swap v < 256 ^ k) where
  swap-swap : (x : ℕ) → x < 256 ^ k → swap (swap x) ≡ x
  swap-swap x h =
      sym (from_low_bytes-low_bytes k (swap (swap x)) (stays (swap x)))
      ∙ ap from_low_bytes same
      ∙ from_low_bytes-low_bytes k x h
    where
      same : low_bytes k (swap (swap x)) ≡ low_bytes k x
      same = rw (reverses (swap x), reverses x) (reverse-reverse (low_bytes k x))

  memory-swap : (x : ℕ) → reverse (low_bytes k (swap x)) ≡ low_bytes k x
  memory-swap x = rw (reverses x) (reverse-reverse (low_bytes k x))

  swap-memory : (x : ℕ) → x < 256 ^ k → swap (from_low_bytes (reverse (low_bytes k x))) ≡ x
  swap-memory x h =
      ap swap (ap from_low_bytes (sym (reverses x)) ∙ from_low_bytes-low_bytes k (swap x) (stays x))
      ∙ swap-swap x h

-- The bytes in memory of an integer after UJO_UINT16_SWAP are those of the integer with the lowest
-- in front, on a platform of either byte order.
pub memory_bytes-uint16_swap :
    (e : Endian) (x : ℕ) → memory_bytes e 2 (uint16_swap e x) ≡ low_bytes 2 x
unfolding memory_bytes uint16_swap
memory_bytes-uint16_swap little x = refl
memory_bytes-uint16_swap big x = memory-swap 2 swap_uint16 swap_uint16-reverse swap_uint16-lt x

-- The bytes in memory of an integer after UJO_UINT32_SWAP are those of the integer with the lowest
-- in front, on a platform of either byte order.
pub memory_bytes-uint32_swap :
    (e : Endian) (x : ℕ) → memory_bytes e 4 (uint32_swap e x) ≡ low_bytes 4 x
unfolding memory_bytes uint32_swap
memory_bytes-uint32_swap little x = refl
memory_bytes-uint32_swap big x = memory-swap 4 swap_uint32 swap_uint32-reverse swap_uint32-lt x

-- The bytes in memory of an integer after UJO_UINT64_SWAP are those of the integer with the lowest
-- in front, on a platform of either byte order.
pub memory_bytes-uint64_swap :
    (e : Endian) (x : ℕ) → memory_bytes e 8 (uint64_swap e x) ≡ low_bytes 8 x
unfolding memory_bytes uint64_swap
memory_bytes-uint64_swap little x = refl
memory_bytes-uint64_swap big x = memory-swap 8 swap_uint64 swap_uint64-reverse swap_uint64-lt x

-- UJO_UINT16_SWAP on what 2 bytes in memory stand for gives the number below 2 ^ 16 whose bytes
-- they are, the lowest in front, on a platform of either byte order.
pub uint16_swap-from_memory :
    (e : Endian) (x : ℕ) → x < 2 ^ 16 → uint16_swap e (from_memory e (low_bytes 2 x)) ≡ x
unfolding from_memory uint16_swap
uint16_swap-from_memory little x h = from_low_bytes-low_bytes 2 x h
uint16_swap-from_memory big x h = swap-memory 2 swap_uint16 swap_uint16-reverse swap_uint16-lt x h

-- UJO_UINT32_SWAP on what 4 bytes in memory stand for gives the number below 2 ^ 32 whose bytes
-- they are, the lowest in front, on a platform of either byte order.
pub uint32_swap-from_memory :
    (e : Endian) (x : ℕ) → x < 2 ^ 32 → uint32_swap e (from_memory e (low_bytes 4 x)) ≡ x
unfolding from_memory uint32_swap
uint32_swap-from_memory little x h = from_low_bytes-low_bytes 4 x h
uint32_swap-from_memory big x h = swap-memory 4 swap_uint32 swap_uint32-reverse swap_uint32-lt x h

-- UJO_UINT64_SWAP on what 8 bytes in memory stand for gives the number below 2 ^ 64 whose bytes
-- they are, the lowest in front, on a platform of either byte order.
pub uint64_swap-from_memory :
    (e : Endian) (x : ℕ) → x < 2 ^ 64 → uint64_swap e (from_memory e (low_bytes 8 x)) ≡ x
unfolding from_memory uint64_swap
uint64_swap-from_memory little x h = from_low_bytes-low_bytes 8 x h
uint64_swap-from_memory big x h = swap-memory 8 swap_uint64 swap_uint64-reverse swap_uint64-lt x h

-- An integer read from its own bytes, without a swap.
pub from_memory-memory_bytes :
    (e : Endian) (k x : ℕ) → x < 256 ^ k → from_memory e (memory_bytes e k x) ≡ x
unfolding from_memory memory_bytes
from_memory-memory_bytes little k x h = from_low_bytes-low_bytes k x h
from_memory-memory_bytes big k x h =
    rw (reverse-reverse (low_bytes k x)) (from_low_bytes-low_bytes k x h)

pub length-memory_bytes : (e : Endian) (k x : ℕ) → length (memory_bytes e k x) ≡ k
unfolding memory_bytes
length-memory_bytes little k x = length-low_bytes k x
length-memory_bytes big k x = length-reverse (low_bytes k x) ∙ length-low_bytes k x
