-- ===== src/Half/Narrowing.antt =====
-- `float_to_half` of src/ujo_float.c by the exponent of its argument.
use libujo_c.Base.{ℕ, ◌+◌, ◌-◌, ◌*◌, ◌/◌, ◌%◌, ◌^◌, ◌<◌, ◌≤◌, ◌≡◌, ap, ◌∙◌, arith}
use libujo_c.Half.{float_to_half}
use libujo_c.Half.Units.{single_index, single_exponent, single_fraction}
use libujo_c.Half.Tables.{base_of, shift_of, float_to_half_lem}

narrowed :
    (f base shift n : ℕ)
    → f < 2 ^ 32
    → base_of (single_index f) ≡ f / 2 ^ 31 * 2 ^ 15 + base
    → shift_of (single_index f) ≡ shift
    → base + single_fraction f / 2 ^ shift ≡ n
    → n < 2 ^ 15
    → float_to_half f ≡ f / 2 ^ 31 * 2 ^ 15 + n
narrowed f base shift n small b s e below = float_to_half_lem f ∙ rw (b, s) (omega (arith, e))

-- The entries for the exponents.
module _ (f : ℕ) (small : f < 2 ^ 32) where
  pub narrow_zero : single_exponent f < 103 → float_to_half f ≡ f / 2 ^ 31 * 2 ^ 15 + 0
  narrow_zero h = narrowed f 0 24 0 small (ground arith) (ground arith) (omega arith) (omega arith)

  pub narrow_tiny :
      (k n : ℕ)
      → single_exponent f ≡ 103 + k
      → k < 10
      → 2 ^ k + single_fraction f / 2 ^ (23 - k) ≡ n
      → n < 1024
      → float_to_half f ≡ f / 2 ^ 31 * 2 ^ 15 + n
  narrow_tiny k n h below e bound =
      narrowed f (2 ^ k) (23 - k) n small
        (ground (arith, ap (◌^◌ 2) {x = single_index f % 256 - 103} {y = k} (omega arith)))
        (ground arith) e (omega arith)

  pub narrow_normal :
      (k : ℕ)
      → single_exponent f ≡ 113 + k
      → k < 30
      → float_to_half f ≡ f / 2 ^ 31 * 2 ^ 15 + ((k + 1) * 1024 + single_fraction f / 8192)
  narrow_normal k h below =
      narrowed f ((k + 1) * 1024) 13 ((k + 1) * 1024 + single_fraction f / 8192) small
        (ground arith) (ground arith) (omega arith) (omega arith)

  pub narrow_large :
      143 ≤ single_exponent f
      → single_exponent f < 255
      → float_to_half f ≡ f / 2 ^ 31 * 2 ^ 15 + 31744
  narrow_large h below =
      narrowed f 31744 24 31744 small (ground arith) (ground arith) (omega arith) (omega arith)

  pub narrow_special :
      single_exponent f ≡ 255
      → float_to_half f ≡ f / 2 ^ 31 * 2 ^ 15 + (31744 + single_fraction f / 8192)
  narrow_special h =
      narrowed f 31744 13 (31744 + single_fraction f / 8192) small (ground arith) (ground arith)
        (omega arith) (omega arith)
