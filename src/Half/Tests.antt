-- ===== src/Half/Tests.antt =====
-- Runs of the conversions of src/ujo_float.c.
use libujo_c.Base.{◌*◌, ◌/◌, ◌^◌, ◌≡◌, refl, leb, arith}
use libujo_c.Half.{float_to_half, half_to_float, isinf_float16}
use libujo_c.Half.Units.{single_units, half_units, single_exponent}
use libujo_c.Half.Exact.{half_to_float-exact}
use libujo_c.Half.Truncation.{Below, float_to_half-Below}
use libujo_c.Half.RoundTrip.{float_to_half-half_to_float}
use libujo_c.Half.Range.{isinf_float16-float_to_half}

-- 1.0
one_narrow : float_to_half 0x3f800000 ≡ 0x3c00
unfolding float_to_half
one_narrow = refl

one_wide : half_to_float 0x3c00 ≡ 0x3f800000
unfolding half_to_float
one_wide = refl

-- 1.5
half_to_float-exact_example :
    (half_to_float 0x3e00 / 2 ^ 31 ≡ 0x3e00 / 2 ^ 15)
    × (single_units (half_to_float 0x3e00) ≡ half_units 0x3e00 * 2 ^ 125)
half_to_float-exact_example = half_to_float-exact 0x3e00 (omega arith) (omega arith)

-- The number next below 65536.
float_to_half-Below_example : Below 0x477fffff (float_to_half 0x477fffff)
float_to_half-Below_example = float_to_half-Below 0x477fffff (omega arith) (omega arith)

-- The smallest half above zero.
float_to_half-half_to_float_example : float_to_half (half_to_float 1) ≡ 1
float_to_half-half_to_float_example = float_to_half-half_to_float 1 (omega arith)

-- 65536
isinf_float16-float_to_half_example :
    isinf_float16 (float_to_half 0x47800000) ≡ leb 143 (single_exponent 0x47800000)
isinf_float16-float_to_half_example = isinf_float16-float_to_half 0x47800000 (omega arith)
