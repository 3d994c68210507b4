-- ===== src/Words.antt =====
-- src/ujo_endian.h: byte swapping, and the bytes that an integer has in memory.
-- A w-bit integer is a number below 2 ^ w; `(uintw_t)` of a wider value is `% 2 ^ w`.
pub mod Bits
pub mod Masks
pub mod Swap
pub mod Bytes
use Prim.Native.Nat.{bit_and, bit_or}
use libujo_c.Base.{ℕ, zero, suc, ◌+◌, ◌*◌, ◌/◌, ◌%◌, ◌^◌, List, [], ◌∷◌}
use mathlib.Core.List.{reverse}
use libujo_c.Platform.{Endian, little, big}

infixl 75 ◌<<◌ ◌>>>◌
abbrev pub ◌<<◌ : ℕ → ℕ → ℕ
x << k = x * 2 ^ k

abbrev pub ◌>>>◌ : ℕ → ℕ → ℕ
x >>> k = x / 2 ^ k

infixl 60 ◌or◌
abbrev pub ◌or◌ : ℕ → ℕ → ℕ
◌or◌ = bit_or

-- `_ujo_uint16_swap`: the operands are promoted to int, and the result is cut to 16 bits.
unfoldable pub swap_uint16 : ℕ → ℕ
swap_uint16 value = (bit_and value 0x00FF << 8 or bit_and value 0xFF00 >>> 8) % 2 ^ 16

-- `_ujo_uint32_swap`: each shift to the left is cut to 32 bits.
unfoldable pub swap_uint32 : ℕ → ℕ
swap_uint32 value =
    bit_and value 0x000000FF << 24 % 2 ^ 32
    or bit_and value 0x0000FF00 << 8 % 2 ^ 32
    or bit_and value 0x00FF0000 >>> 8
    or bit_and value 0xFF000000 >>> 24

-- `_ujo_uint64_swap`
unfoldable pub swap_uint64 : ℕ → ℕ
swap_uint64 value =
    bit_and value 0x00000000000000FF << 56 % 2 ^ 64
    or bit_and value 0x000000000000FF00 << 40 % 2 ^ 64
    or bit_and value 0x0000000000FF0000 << 24 % 2 ^ 64
    or bit_and value 0x00000000FF000000 << 8 % 2 ^ 64
    or bit_and value 0x000000FF00000000 >>> 8
    or bit_and value 0x0000FF0000000000 >>> 24
    or bit_and value 0x00FF000000000000 >>> 40
    or bit_and value 0xFF00000000000000 >>> 56

-- The macros UJO_UINT16_SWAP, UJO_UINT32_SWAP and UJO_UINT64_SWAP.
unfoldable pub uint16_swap : Endian → ℕ → ℕ
uint16_swap little x = x
uint16_swap big x = swap_uint16 x

unfoldable pub uint32_swap : Endian → ℕ → ℕ
uint32_swap little x = x
uint32_swap big x = swap_uint32 x

unfoldable pub uint64_swap : Endian → ℕ → ℕ
uint64_swap little x = x
uint64_swap big x = swap_uint64 x

-- UJO_FLOAT32_SWAP and UJO_FLOAT64_SWAP: a union makes the bits of the float an integer of its width.
abbrev pub float32_swap : Endian → ℕ → ℕ
float32_swap e x = uint32_swap e x

abbrev pub float64_swap : Endian → ℕ → ℕ
float64_swap e x = uint64_swap e x

-- The k lowest bytes of a number, the lowest in front.
unfoldable pub low_bytes : ℕ → ℕ → List ℕ
low_bytes zero x = []
low_bytes (suc k) x = x % 256 ∷ low_bytes k (x / 256)

unfoldable pub from_low_bytes : List ℕ → ℕ
from_low_bytes [] = 0
from_low_bytes (b ∷ bs) = b + 256 * from_low_bytes bs

-- The k bytes of an integer in memory, in the byte order of the platform.
unfoldable pub memory_bytes : Endian → ℕ → ℕ → List ℕ
memory_bytes little k x = low_bytes k x
memory_bytes big k x = reverse (low_bytes k x)

-- The integer that bytes in memory stand for.
unfoldable pub from_memory : Endian → List ℕ → ℕ
from_memory little bs = from_low_bytes bs
from_memory big bs = from_low_bytes (reverse bs)
