-- ===== src/Half/Range.antt =====
-- What `isinf_float16` and `isnan_float16` of src/ujo_float.c say of a number that was narrowed.
use libujo_c.Base.{ℕ, ◌*◌, ◌/◌, ◌%◌, ◌^◌, ◌<◌, ◌≡◌, ap, ◌∙◌, inl, inr, ◌==◌, leb, arith, false}
use Prim.Native.Nat.{bit_and}
use libujo_c.Words.Bits.{bit_and-mask_up}
use libujo_c.Words.Masks.{mask_5}
use libujo_c.Half.{float_to_half, isinf_float16, isnan_float16}
use libujo_c.Half.Units.{single_exponent}
use libujo_c.Half.Narrowing.{narrow_large, narrow_special}
use libujo_c.Half.Truncation.{order, float_to_half-Below}

mask_exponent : (x : ℕ) → bit_and x 0x7C00 ≡ x / 1024 % 32 * 1024
mask_exponent x = bit_and-mask_up 10 x 31 ∙ ap (λ t. t * 1024) (mask_5 (x / 1024))

isinf_float16_lem : (x : ℕ) → isinf_float16 x ≡ (x / 1024 % 32 == 31)
unfolding isinf_float16
isinf_float16_lem x = rw (mask_exponent x) (ground arith)

-- Of a single precision number that was narrowed, `isinf_float16` holds from the magnitude 65536 on,
-- of infinity and of NaN, and of no other.
pub isinf_float16-float_to_half :
    (f : ℕ) → f < 2 ^ 32 → isinf_float16 (float_to_half f) ≡ leb 143 (single_exponent f)
isinf_float16-float_to_half f small = elim (order (single_exponent f) 143) [
  | inl below ↦
      let finite = (float_to_half-Below f small below).finite in
      isinf_float16_lem (float_to_half f) ∙ ground arith
  | inr above ↦ elim (order (single_exponent f) 255) [
    | inl over ↦
        let made = narrow_large f small above over in
        isinf_float16_lem (float_to_half f) ∙ ground arith
    | inr top ↦
        let made = narrow_special f small (omega arith) in
        isinf_float16_lem (float_to_half f) ∙ ground arith
  ]
]

-- What is no infinity is no NaN.
pub isnan_float16-finite : (x : ℕ) → isinf_float16 x ≡ false → isnan_float16 x ≡ false
unfolding isinf_float16 isnan_float16
isnan_float16-finite x e = rw e
