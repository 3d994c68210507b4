-- ===== src/Half.antt =====
-- src/ujo_float.c: half precision numbers by table lookup. A float is its bit pattern.
mod Narrow
mod Widen
mod Tables
pub mod Units
mod Exact
mod Narrowing
mod Truncation
mod RoundTrip
pub mod Range
pub mod Tests
use Prim.Native.Nat.{bit_and}
use libujo_c.Base.{ℕ, ◌+◌, ◌/◌, ◌%◌, ◌^◌, Bool, ◌&&◌, not, ◌==◌, get_or}
use Narrow.{base_table, shift_table}
use Widen.{mantissa_table, exponent_table, offset_table}

-- The sign and the exponent of a single precision number, which index the tables.
narrow_index : ℕ → ℕ
narrow_index f = bit_and (f / 2 ^ 23) 0x1ff

-- `float_to_half`: the sum is cut to 16 bits.
unfoldable pub float_to_half : ℕ → ℕ
unfolding narrow_index
float_to_half f =
    (get_or base_table (narrow_index f) 0
      + bit_and f 0x007fffff / 2 ^ get_or shift_table (narrow_index f) 0)
    % 2 ^ 16

-- `half_to_float`: the sum is cut to 32 bits.
unfoldable pub half_to_float : ℕ → ℕ
half_to_float h =
    (get_or mantissa_table (get_or offset_table (h / 2 ^ 10) 0 + bit_and h 0x3ff) 0
      + get_or exponent_table (h / 2 ^ 10) 0)
    % 2 ^ 32

-- `isinf_float16`, as a test: the C function returns -1 or 0.
unfoldable pub isinf_float16 : ℕ → Bool
isinf_float16 x = bit_and x 0x7C00 == 0x7C00

-- `isnan_float16`
unfoldable pub isnan_float16 : ℕ → Bool
isnan_float16 x = bit_and x 0x7C00 == 0x7C00 && not (bit_and x 0x3FF == 0)
