-- ===== src/Half/Truncation.antt =====
-- `float_to_half` of src/ujo_float.c rounds towards zero.
use native.Mathlib.Nat.{
  lt_of_mul-lt-mul_right, mul-lt-mul_of_pos_right, mul-le-mul_right, div-add-mod', mod-lt,
  one-le-pow, pow-le-pow_right,
}
use libujo_c.Base.{
  ℕ, zero, suc, ◌+◌, ◌-◌, ◌*◌, ◌/◌, ◌%◌, ◌^◌, ◌<◌, ◌≤◌, ◌≡◌, ◌⊎◌, inl, inr, refl, sym, ap, ◌∙◌,
  arith,
}
use libujo_c.Half.{float_to_half}
use libujo_c.Half.Units.{
  single_exponent, single_fraction, single_units, single_units-fields, units_of_single, half_units,
  half_units-zero, half_units-suc, pow_add, units_of_single-normal,
}
use libujo_c.Half.Narrowing.{narrow_zero, narrow_tiny, narrow_normal}

-- A half between which and the next one a single precision number lies, without the signs.
pub record Below (f h : ℕ) : Type 0 where
  pub sign : h / 2 ^ 15 ≡ f / 2 ^ 31
  pub finite : h / 1024 % 32 < 31
  pub reached : half_units h * 2 ^ 125 ≤ single_units f
  pub next_is_above : single_units f < half_units (h + 1) * 2 ^ 125

-- Of the patterns up to the first with a leading one, the value is the pattern.
half_units-low : (h s n : ℕ) → h ≡ s * 2 ^ 15 + n → n ≤ 1024 → half_units h ≡ n
half_units-low h s n e small = elim (le_split n small) [
  | inl below ↦ half_units-zero h (omega arith) ∙ omega arith
  | inr top ↦ half_units-suc h 0 0 (omega arith) (omega arith) ∙ omega arith
]
  where
    le_split : (n : ℕ) → n ≤ 1024 → (n < 1024) ⊎ (n ≡ 1024)
    le_split n h = ground arith

-- The pattern after one with the leading one, which may begin the next exponent.
half_units-next :
    (h s k q : ℕ)
    → h ≡ s * 2 ^ 15 + (k + 1) * 1024 + q + 1
    → k < 30
    → q < 1024
    → half_units h ≡ (1025 + q) * 2 ^ k
half_units-next h s k q e hk hq = elim (lt_split q hq) [
  | inl below ↦ half_units-suc h k (q + 1) (omega arith) (omega arith) ∙ omega arith
  | inr top ↦
      half_units-suc h (k + 1) 0 (omega arith) (omega arith)
      ∙ omega (arith, pow_add 1 k (k + 1) (omega arith), ap (λ t. t * 2 ^ k) top)
]
  where
    lt_split : (q : ℕ) → q < 1024 → (q < 1023) ⊎ (q ≡ 1023)
    lt_split q h = ground arith

-- Division by Q, in units of which D are a unit of the half, where P of Q are the leading one.
divided :
    (P Q D m : ℕ)
    → P * Q ≡ 2 ^ 23
    → Q * D ≡ 2 ^ 125
    → P ≤ 512
    → m < 2 ^ 23
    → 0 < Q
    → 0 < D
    → (P + m / Q < 1024)
      × ((P + m / Q) * 2 ^ 125 ≤ (2 ^ 23 + m) * D)
      × ((2 ^ 23 + m) * D < (P + m / Q + 1) * 2 ^ 125)
divided P Q D m whole unit small below Q_pos D_pos =
    let parts : m / Q * Q + m % Q ≡ m = div-add-mod' m Q in
    let rest : m % Q < Q = mod-lt m Q_pos in
    let fewer : m / Q < P = lt_of_mul-lt-mul_right Q (omega arith) in
    let scaled : (m / Q * Q + m % Q) * D ≡ m * D = ap (λ t. t * D) parts in
    let one : P * Q * D ≡ 2 ^ 23 * D = ap (λ t. t * D) whole in
    let unit_P : P * (Q * D) ≡ P * 2 ^ 125 = ap (λ t. P * t) unit in
    let unit_q : m / Q * (Q * D) ≡ m / Q * 2 ^ 125 = ap (λ t. m / Q * t) unit in
    let left_over : m % Q * D < Q * D = mul-lt-mul_of_pos_right rest D_pos in
    (omega arith, omega arith, omega arith)

Below-of :
    (f h s n : ℕ)
    → h ≡ s * 2 ^ 15 + n
    → f / 2 ^ 31 ≡ s
    → n < 31744
    → half_units h * 2 ^ 125 ≤ single_units f
    → single_units f < half_units (h + 1) * 2 ^ 125
    → Below f h
Below-of f h s n made e small reached next = record {
  sign = omega arith;
  finite = omega arith;
  reached = reached;
  next_is_above = next;
}

-- Single precision numbers below the smallest half.
units_of_single-tiny : (e m : ℕ) → e < 103 → m < 2 ^ 23 → units_of_single e m < 2 ^ 125
unfolding units_of_single
units_of_single-tiny zero m h l = omega arith
units_of_single-tiny (suc k) m h l = omega (
  arith,
  units_of_single-normal k m,
  mul-lt-mul_of_pos_right {m = 2 ^ 23 + m} {n = 2 ^ 24} {k = 2 ^ k} (omega arith)
      (one-le-pow k 2 (omega arith)),
  pow-le-pow_right {n = 2} (omega arith) {i = k} {j = 101} (omega arith),
)

pub order : (a b : ℕ) → (a < b) ⊎ (b ≤ a)
order a b = ground arith

by_size :
    (e : ℕ)
    → e < 143
    → (e < 103) ⊎ (((k : ℕ) × (e ≡ 103 + k) × (k < 10)) ⊎ ((k : ℕ) × (e ≡ 113 + k) × (k < 30)))
by_size e h = elim (order e 103) [
  | inl low ↦ inl low
  | inr over ↦ elim (order e 113) [
    | inl low ↦ inr (inl (e - 103, omega arith, omega arith))
    | inr high ↦ inr (inr (e - 113, omega arith, omega arith))
  ]
]

module _ (f : ℕ) (small : f < 2 ^ 32) where
  zero-Below : single_exponent f < 103 → Below f (float_to_half f)
  zero-Below h =
      let made = narrow_zero f small h in
      Below-of f (float_to_half f) (f / 2 ^ 31) 0 made refl (omega arith)
        (omega (arith, half_units-low (float_to_half f) (f / 2 ^ 31) 0 made (omega arith)))
        (omega (
          arith,
          half_units-low (float_to_half f + 1) (f / 2 ^ 31) 1 (omega arith) (omega arith),
          single_units-fields f (single_exponent f) (single_fraction f) refl refl,
          units_of_single-tiny (single_exponent f) (single_fraction f) h (omega arith),
        ))

  tiny-Below : (k : ℕ) → single_exponent f ≡ 103 + k → k < 10 → Below f (float_to_half f)
  tiny-Below k h below =
      let m : ℕ = single_fraction f in
      let n : ℕ = 2 ^ k + m / 2 ^ (23 - k) in
      let (bound, low, high) =
        divided (2 ^ k) (2 ^ (23 - k)) (2 ^ (102 + k)) m (sym (pow_add k (23 - k) 23 (omega arith)))
          (sym (pow_add (23 - k) (102 + k) 125 (omega arith)))
          (pow-le-pow_right {n = 2} (omega arith) {i = k} {j = 9} (omega arith)) (omega arith)
          (one-le-pow (23 - k) 2 (omega arith)) (one-le-pow (102 + k) 2 (omega arith)) in
      let made = narrow_tiny f small k n h below refl bound in
      let value : single_units f ≡ (2 ^ 23 + m) * 2 ^ (102 + k) =
        single_units-fields f (suc (102 + k)) m (omega arith) refl
        ∙ units_of_single-normal (102 + k) m in
      Below-of f (float_to_half f) (f / 2 ^ 31) n made refl (omega arith)
        (omega (arith, half_units-low (float_to_half f) (f / 2 ^ 31) n made (omega arith)))
        (omega (
          arith,
          half_units-low (float_to_half f + 1) (f / 2 ^ 31) (n + 1) (omega arith) (omega arith),
        ))

  normal-Below : (k : ℕ) → single_exponent f ≡ 113 + k → k < 30 → Below f (float_to_half f)
  normal-Below k h below =
      let m : ℕ = single_fraction f in
      let q : ℕ = m / 8192 in
      let made = narrow_normal f small k h below in
      let value : single_units f ≡ (2 ^ 23 + m) * 2 ^ (112 + k) =
        single_units-fields f (suc (112 + k)) m (omega arith) refl
        ∙ units_of_single-normal (112 + k) m in
      let power : 2 ^ (112 + k) ≡ 2 ^ 112 * 2 ^ k = pow_add 112 k (112 + k) refl in
      let scaled : (2 ^ 23 + m) * 2 ^ (112 + k) ≡ (2 ^ 23 + m) * (2 ^ 112 * 2 ^ k) =
        ap (λ t. (2 ^ 23 + m) * t) power in
      Below-of f (float_to_half f) (f / 2 ^ 31) ((k + 1) * 1024 + q) made refl (omega arith)
        (omega (
          arith,
          half_units-suc (float_to_half f) k q (omega arith) (omega arith),
          mul-le-mul_right {m = 8192 * q} {n = m} (2 ^ k) (omega arith),
        ))
        (omega (
          arith,
          half_units-next (float_to_half f + 1) (f / 2 ^ 31) k q (omega arith) below (omega arith),
          mul-lt-mul_of_pos_right {m = m} {n = 8192 * q + 8192} {k = 2 ^ k} (omega arith)
              (one-le-pow k 2 (omega arith)),
        ))

  -- A single precision number below 65536 is narrowed to the half next to it on the side of zero: the
  -- sign is the same, the magnitude of the half is at most the number's, and that of the next half is
  -- greater.
  pub float_to_half-Below : single_exponent f < 143 → Below f (float_to_half f)
  float_to_half-Below h = elim (by_size (single_exponent f) h) [
    | inl low ↦ zero-Below low
    | inr (inl (k, e, below)) ↦ tiny-Below k e below
    | inr (inr (k, e, below)) ↦ normal-Below k e below
  ]
