-- ===== src/Half/Units.antt =====
-- The values of the half and single precision numbers of src/ujo_float.c, as IEEE 754 defines them
-- for finite numbers, without the sign.
use native.Mathlib.Omega.{pow_step}
use libujo_c.Base.{
  ℕ, zero, suc, ◌≡◌, ap, ◌∙◌, arith, ◌+◌, ◌-◌, ◌*◌, ◌/◌, ◌%◌, ◌^◌, ◌==◌, if◌then◌else◌,
}

-- The fields of a single precision number. The sign and the exponent index the tables.
abbrev pub single_index : ℕ → ℕ
single_index f = f / 2 ^ 23 % 512

abbrev pub single_exponent : ℕ → ℕ
single_exponent f = f / 2 ^ 23 % 256

abbrev pub single_fraction : ℕ → ℕ
single_fraction f = f % 2 ^ 23

-- In units of 2 ^ -149.
unfoldable pub units_of_single : (exponent fraction : ℕ) → ℕ
units_of_single e m = if e == 0 then m else (2 ^ 23 + m) * 2 ^ (e - 1)

unfoldable pub single_units : ℕ → ℕ
single_units f = units_of_single (single_exponent f) (single_fraction f)

-- In units of 2 ^ -24, which are 2 ^ 125 of those above.
unfoldable pub units_of_half : (exponent fraction : ℕ) → ℕ
units_of_half e m = if e == 0 then m else (1024 + m) * 2 ^ (e - 1)

unfoldable pub half_units : ℕ → ℕ
half_units h = units_of_half (h / 1024 % 32) (h % 1024)

pub pow_add : (m n k : ℕ) → k ≡ m + n → 2 ^ k ≡ 2 ^ m * 2 ^ n
pow_add m zero k e = ap (◌^◌ 2) {y = m} (omega arith) ∙ omega arith
pow_add m (suc n) k e =
    ap (◌^◌ 2) {y = suc (m + n)} (omega arith)
    ∙ pow_step 2 (m + n)
    ∙ omega (arith, pow_add m n (m + n) (omega arith), ap (λ t. 2 ^ m * t) (pow_step 2 n))

pub units_of_single-normal : (e m : ℕ) → units_of_single (suc e) m ≡ (2 ^ 23 + m) * 2 ^ e
unfolding units_of_single
units_of_single-normal e m = ground arith

units_of_half-normal : (e m : ℕ) → units_of_half (suc e) m ≡ (1024 + m) * 2 ^ e
unfolding units_of_half
units_of_half-normal e m = ground arith

pub single_units-fields :
    (f e m : ℕ)
    → single_exponent f ≡ e
    → single_fraction f ≡ m
    → single_units f ≡ units_of_single e m
unfolding single_units
single_units-fields f e m h k = rw (h, k)

pub half_units-zero : (h : ℕ) → h / 1024 % 32 ≡ 0 → half_units h ≡ h % 1024
unfolding half_units units_of_half
half_units-zero h e = rw e

pub half_units-suc :
    (h k m : ℕ) → h / 1024 % 32 ≡ suc k → h % 1024 ≡ m → half_units h ≡ (1024 + m) * 2 ^ k
unfolding half_units
half_units-suc h k m e f = rw (e, f) (units_of_half-normal k m)
