-- ===== src/Half/RoundTrip.antt =====
-- A half of src/ujo_float.c through a single precision number and back.
use libujo_c.Base.{
  ℕ, zero, suc, ◌+◌, ◌*◌, ◌/◌, ◌%◌, ◌^◌, ◌<◌, ◌≡◌, refl, sym, ap, ◌∙◌, Bool, true, ◌&&◌, ◌==◌, ltb,
  inl, inr, lt→ltb, if◌then◌else◌, get_or, arith,
}
use libujo_c.Half.{float_to_half, half_to_float, narrow_index}
use libujo_c.Half.Widen.{mantissa_table}
use libujo_c.Half.Tables.{
  all_from, all_from-at, both_true, equal_if, half_to_float-normal, half_to_float-small,
}
use libujo_c.Half.Truncation.{order}
use libujo_c.Half.Narrowing.{narrow_normal, narrow_special}

abbrev comes_back : ℕ → ℕ → Bool
comes_back i v =
    if ltb i 1024 then float_to_half v == i && float_to_half (v + 2 ^ 31) == i + 2 ^ 15 else true

mantissa_table-back : all_from comes_back 0 mantissa_table ≡ true
unfolding float_to_half narrow_index
mantissa_table-back = refl

lower-back :
    (m : ℕ)
    → m < 1024
    → (float_to_half (get_or mantissa_table m 0) ≡ m)
      × (float_to_half (get_or mantissa_table m 0 + 2 ^ 31) ≡ m + 2 ^ 15)
lower-back m h =
    both m (get_or mantissa_table m 0) h
      (all_from-at comes_back 0 mantissa_table m m mantissa_table-back (omega arith) (omega arith))
  where
    both :
        (m v : ℕ)
        → m < 1024
        → comes_back m v ≡ true
        → (float_to_half v ≡ m) × (float_to_half (v + 2 ^ 31) ≡ m + 2 ^ 15)
    both m v h fits =
        let (plus, minus) =
          both_true (float_to_half v == m) (float_to_half (v + 2 ^ 31) == m + 2 ^ 15)
            (sym (rw (lt→ltb m 1024 h)) ∙ fits) in
        (equal_if _ _ plus, equal_if _ _ minus)

small-back : (h : ℕ) → h < 2 ^ 16 → h / 1024 % 32 ≡ 0 → float_to_half (half_to_float h) ≡ h
small-back h small low =
    let v : ℕ = get_or mantissa_table (h % 1024) 0 in
    let (plus, minus) = lower-back (h % 1024) (omega arith) in
    ap float_to_half (half_to_float-small h small low)
    ∙ by_sign (h / 2 ^ 15) v plus minus (omega arith)
  where
    by_sign :
        (s v : ℕ)
        → float_to_half v ≡ h % 1024
        → float_to_half (v + 2 ^ 31) ≡ h % 1024 + 2 ^ 15
        → h ≡ s * 2 ^ 15 + h % 1024
        → float_to_half (v + s * 2 ^ 31) ≡ h
    by_sign zero v plus minus e = ap float_to_half {y = v} (omega arith) ∙ plus ∙ omega arith
    by_sign (suc zero) v plus minus e = minus ∙ omega arith
    by_sign (suc (suc s)) v plus minus e = absurd (omega (arith, small))

normal-back :
    (h k : ℕ) → h < 2 ^ 16 → h / 1024 % 32 ≡ suc k → k < 30 → float_to_half (half_to_float h) ≡ h
normal-back h k small e below =
    let f : ℕ = half_to_float h in
    let made : f ≡ h / 2 ^ 15 * 2 ^ 31 + (k + 113) * 2 ^ 23 + h % 1024 * 8192 =
      half_to_float-normal h small (omega arith) ∙ ground arith in
    narrow_normal f (omega arith) k (omega arith) below ∙ omega arith

special-back : (h : ℕ) → h < 2 ^ 16 → h / 1024 % 32 ≡ 31 → float_to_half (half_to_float h) ≡ h
special-back h small e =
    let f : ℕ = half_to_float h in
    let made : f ≡ h / 2 ^ 15 * 2 ^ 31 + 255 * 2 ^ 23 + h % 1024 * 8192 =
      half_to_float-normal h small (omega arith) ∙ ground arith in
    narrow_special f (omega arith) (omega arith) ∙ omega arith

-- `float_to_half` undoes `half_to_float` on every half, NaN and infinity included.
pub float_to_half-half_to_float : (h : ℕ) → h < 2 ^ 16 → float_to_half (half_to_float h) ≡ h
float_to_half-half_to_float h small = by_exponent (h / 1024 % 32) refl (omega arith)
  where
    by_exponent : (e : ℕ) → h / 1024 % 32 ≡ e → e < 32 → float_to_half (half_to_float h) ≡ h
    by_exponent zero e below = small-back h small e
    by_exponent (suc k) e below = elim (order k 30) [
      | inl fewer ↦ normal-back h k small e fewer
      | inr top ↦ special-back h small (omega arith)
    ]
