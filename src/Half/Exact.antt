-- ===== src/Half/Exact.antt =====
-- `half_to_float` of src/ujo_float.c gives the same number.
use libujo_c.Base.{
  ℕ, zero, suc, ◌+◌, ◌*◌, ◌/◌, ◌%◌, ◌^◌, ◌<◌, ◌≡◌, refl, sym, ap, get_or, ◌∙◌, arith,
}
use libujo_c.Half.{half_to_float}
use libujo_c.Half.Units.{
  single_exponent, single_fraction, single_units, single_units-fields, half_units, half_units-zero,
  half_units-suc, pow_add, units_of_single-normal,
}
use libujo_c.Half.Tables.{half_to_float-normal, half_to_float-small, lower_mantissa}
use libujo_c.Half.Widen.{mantissa_table}

-- The fields of a single precision number put together.
pub record Fields (f s e m : ℕ) : Type 0 where
  pub sign : f / 2 ^ 31 ≡ s
  pub exponent : single_exponent f ≡ e
  pub fraction : single_fraction f ≡ m

pub Fields-of : (s e m : ℕ) → e < 256 → m < 2 ^ 23 → Fields (s * 2 ^ 31 + e * 2 ^ 23 + m) s e m
Fields-of s e m he hm = record {
  sign = omega arith;
  exponent = omega arith;
  fraction = omega arith;
}

abbrev SameNumber : ℕ → Type 0
SameNumber h =
    (half_to_float h / 2 ^ 31 ≡ h / 2 ^ 15)
    × (single_units (half_to_float h) ≡ half_units h * 2 ^ 125)

small_exact : (h : ℕ) → h < 2 ^ 16 → h / 1024 % 32 ≡ 0 → SameNumber h
small_exact h small low =
    let v : ℕ = get_or mantissa_table (h % 1024) 0 in
    let made = half_to_float-small h small low in
    let (below, same) = lower_mantissa (h % 1024) (omega arith) in
    (
      omega arith,
      single_units-fields (half_to_float h) (v / 2 ^ 23) (v % 2 ^ 23) (omega arith) (omega arith)
          ∙ same
          ∙ ap (λ t. t * 2 ^ 125) (sym (half_units-zero h low)),
    )

normal_exact : (h k : ℕ) → h < 2 ^ 16 → h / 1024 % 32 ≡ suc k → k < 30 → SameNumber h
normal_exact h k small e finite =
    let made : half_to_float h ≡ h / 2 ^ 15 * 2 ^ 31 + (k + 113) * 2 ^ 23 + h % 1024 * 8192 =
      half_to_float-normal h small (omega arith) ∙ ground arith in
    let fields = Fields-of (h / 2 ^ 15) (k + 113) (h % 1024 * 8192) (omega arith) (omega arith) in
    (
      ap (λ t. t / 2 ^ 31) made ∙ fields.sign,
      single_units-fields (half_to_float h) (suc (k + 112)) (h % 1024 * 8192)
            (ap single_exponent made ∙ fields.exponent ∙ omega arith)
            (ap single_fraction made ∙ fields.fraction)
          ∙ units_of_single-normal (k + 112) (h % 1024 * 8192)
          ∙ omega (
            arith,
            half_units-suc h k (h % 1024) e refl,
            ap (λ t. (2 ^ 23 + h % 1024 * 8192) * t) (pow_add 112 k (k + 112) (omega arith)),
          ),
    )

-- A finite half and the single precision number that `half_to_float` makes of it are the same number:
-- the sign is the same, and the magnitude in units of 2 ^ -149 is 2 ^ 125 times that in units of
-- 2 ^ -24.
pub half_to_float-exact :
    (h : ℕ)
    → h < 2 ^ 16
    → h / 1024 % 32 < 31
    → (half_to_float h / 2 ^ 31 ≡ h / 2 ^ 15)
      × (single_units (half_to_float h) ≡ half_units h * 2 ^ 125)
half_to_float-exact h small finite = by_exponent (h / 1024 % 32) (omega arith) finite
  where
    by_exponent : (e : ℕ) → h / 1024 % 32 ≡ e → e < 31 → SameNumber h
    by_exponent zero e below = small_exact h small e
    by_exponent (suc k) e below = normal_exact h k small e (omega arith)
