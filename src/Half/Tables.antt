-- ===== src/Half/Tables.antt =====
-- The tables of src/ujo_float.c as functions of the index, and the two conversions in their terms.
use native.Mathlib.Nat.{zero-add}
use libujo_c.Base.{
  ◌≢◌, ◌≤◌, ℕ, zero, suc, ◌+◌, ◌-◌, ◌*◌, ◌/◌, ◌%◌, ◌^◌, ◌<◌, ◌≡◌, refl, sym, ap, ◌∙◌, Bool, true,
  false, ◌&&◌, List, [], ◌∷◌, ◌==◌, ltb, lt→ltb, ltb→lt, le→ltb, if◌then◌else◌, get_or, length,
  arith,
}
use libujo_c.Words.Masks.{mask_9, mask_10, mask_23}
use libujo_c.Half.{float_to_half, half_to_float, narrow_index}
use libujo_c.Half.Narrow.{base_table, shift_table}
use libujo_c.Half.Widen.{mantissa_table, exponent_table, offset_table}
use libujo_c.Half.Units.{units_of_single, single_index, single_fraction}

abbrev tabulate : (ℕ → ℕ) → ℕ → ℕ → List ℕ
tabulate f k zero = []
tabulate f k (suc n) = f k ∷ tabulate f (k + 1) n

get_or-tabulate : (f : ℕ → ℕ) (k n i j : ℕ) → i < n → k + i ≡ j → get_or (tabulate f k n) i 0 ≡ f j
get_or-tabulate f k zero i j h e = absurd (omega arith)
get_or-tabulate f k (suc n) zero j h e = ap f (omega arith)
get_or-tabulate f k (suc n) (suc i) j h e =
    get_or-tabulate f (k + 1) n i j (omega arith) (omega arith)

look :
    (f : ℕ → ℕ) (table : List ℕ) (n i : ℕ) → table ≡ tabulate f 0 n → i < n → get_or table i 0 ≡ f i
look f table n i e h = ap (λ t. get_or t i 0) e ∙ get_or-tabulate f 0 n i i h (omega arith)

-- A test on each index and the entry there.
abbrev pub all_from : (ℕ → ℕ → Bool) → ℕ → List ℕ → Bool
all_from test k [] = true
all_from test k (x ∷ xs) = test k x && all_from test (k + 1) xs

-- By the exponent: too small for a half, a half without the leading one, a half with it, too large.
abbrev pub base_of : ℕ → ℕ
base_of i =
    let e = i % 256 in
    i / 256 * 2 ^ 15
    + (if ltb e 103
        then 0
        else (if ltb e 113 then 2 ^ (e - 103) else (if ltb e 143 then (e - 112) * 1024 else 31744)))

abbrev pub shift_of : ℕ → ℕ
shift_of i =
    let e = i % 256 in
    if ltb e 103
    then 24
    else (if ltb e 113 then 126 - e else (if ltb e 143 then 13 else (if e == 255 then 13 else 24)))

abbrev pub exponent_of : ℕ → ℕ
exponent_of i = let e = i % 32 in i / 32 * 2 ^ 31 + (if e == 31 then 143 * 2 ^ 23 else e * 2 ^ 23)

abbrev pub offset_of : ℕ → ℕ
offset_of i = if i % 32 == 0 then 0 else 1024

base_table_lem : base_table ≡ tabulate base_of 0 512
base_table_lem = refl

shift_table_lem : shift_table ≡ tabulate shift_of 0 512
shift_table_lem = refl

exponent_table_lem : exponent_table ≡ tabulate exponent_of 0 64
exponent_table_lem = refl

offset_table_lem : offset_table ≡ tabulate offset_of 0 64
offset_table_lem = refl

-- The first half of the table has the halves without a leading one, the second the rest.
abbrev mantissa_fits : ℕ → ℕ → Bool
mantissa_fits i v =
    if ltb i 1024
    then units_of_single (v / 2 ^ 23) (v % 2 ^ 23) == i * 2 ^ 125 && ltb v (2 ^ 31)
    else v == 112 * 2 ^ 23 + (i - 1024) * 8192

pub both_true : (b c : Bool) → b && c ≡ true → (b ≡ true) × (c ≡ true)
both_true true c h = (refl, h)
both_true false c h = cc

mantissa_table_lem : all_from mantissa_fits 0 mantissa_table ≡ true
unfolding units_of_single
mantissa_table_lem = refl

pub all_from-at :
    (test : ℕ → ℕ → Bool) (k : ℕ) (xs : List ℕ) (i j : ℕ)
    → all_from test k xs ≡ true
    → i < length xs
    → j ≡ k + i
    → test j (get_or xs i 0) ≡ true
all_from-at test k [] i j h below e = absurd (omega arith)
all_from-at test k (x ∷ xs) zero j h below e =
    ap (λ t. test t x) (omega arith) ∙ (both_true (test k x) (all_from test (k + 1) xs) h).0
all_from-at test k (x ∷ xs) (suc i) j h below e =
    all_from-at test (k + 1) xs i j ((both_true (test k x) (all_from test (k + 1) xs) h).1)
      (omega arith) (omega arith)

mantissa-fits : (i : ℕ) → i < 2048 → mantissa_fits i (get_or mantissa_table i 0) ≡ true
mantissa-fits i h =
    all_from-at mantissa_fits 0 mantissa_table i i mantissa_table_lem h (omega arith)

base_lem : (i : ℕ) → i < 512 → get_or base_table i 0 ≡ base_of i
base_lem i = look base_of base_table 512 i base_table_lem

shift_lem : (i : ℕ) → i < 512 → get_or shift_table i 0 ≡ shift_of i
shift_lem i = look shift_of shift_table 512 i shift_table_lem

exponent_lem : (i : ℕ) → i < 64 → get_or exponent_table i 0 ≡ exponent_of i
exponent_lem i = look exponent_of exponent_table 64 i exponent_table_lem

offset_lem : (i : ℕ) → i < 64 → get_or offset_table i 0 ≡ offset_of i
offset_lem i = look offset_of offset_table 64 i offset_table_lem

narrow_index_lem : (f : ℕ) → narrow_index f ≡ single_index f
unfolding narrow_index
narrow_index_lem f = mask_9 (f / 2 ^ 23)

pub float_to_half_lem :
    (f : ℕ)
    → float_to_half f
      ≡ (base_of (single_index f) + single_fraction f / 2 ^ shift_of (single_index f)) % 2 ^ 16
unfolding float_to_half
float_to_half_lem f = rw (
  narrow_index_lem f,
  base_lem (single_index f) (omega arith),
  shift_lem (single_index f) (omega arith),
  mask_23 f,
)

pub half_to_float_lem :
    (h : ℕ)
    → h < 2 ^ 16
    → half_to_float h
      ≡ (get_or mantissa_table (offset_of (h / 2 ^ 10) + h % 2 ^ 10) 0 + exponent_of (h / 2 ^ 10))
        % 2 ^ 32
unfolding half_to_float
half_to_float_lem h small =
    rw (offset_lem (h / 2 ^ 10) (omega arith), exponent_lem (h / 2 ^ 10) (omega arith), mask_10 h)

pub equal_if : (a b : ℕ) → a == b ≡ true → a ≡ b
equal_if a b h = ground arith

upper_mantissa : (m : ℕ) → m < 1024 → get_or mantissa_table (1024 + m) 0 ≡ 112 * 2 ^ 23 + m * 8192
upper_mantissa m h =
    let fits = mantissa-fits (1024 + m) (omega arith) in
    equal_if _ _ (upper (1024 + m) (get_or mantissa_table (1024 + m) 0) (omega arith) fits)
    ∙ omega arith
  where
    upper :
        (i v : ℕ)
        → 1024 ≤ i
        → mantissa_fits i v ≡ true
        → v == 112 * 2 ^ 23 + (i - 1024) * 8192 ≡ true
    upper i v over fits = sym (rw (le→ltb i 1024 over)) ∙ fits

pub lower_mantissa :
    (m : ℕ)
    → m < 1024
    → (get_or mantissa_table m 0 < 2 ^ 31)
      × (units_of_single (get_or mantissa_table m 0 / 2 ^ 23) (get_or mantissa_table m 0 % 2 ^ 23)
          ≡ m * 2 ^ 125)
lower_mantissa m h = lower m (get_or mantissa_table m 0) h (mantissa-fits m (omega arith))
  where
    lower :
        (i v : ℕ)
        → i < 1024
        → mantissa_fits i v ≡ true
        → (v < 2 ^ 31) × (units_of_single (v / 2 ^ 23) (v % 2 ^ 23) ≡ i * 2 ^ 125)
    lower i v small fits =
        let both =
          both_true (units_of_single (v / 2 ^ 23) (v % 2 ^ 23) == i * 2 ^ 125) (ltb v (2 ^ 31))
            (sym (rw (lt→ltb i 1024 small)) ∙ fits) in
        (ltb→lt v (2 ^ 31) both.1, equal_if _ _ both.0)

-- A half with the leading one, or one that stands for no finite number.
pub half_to_float-normal :
    (h : ℕ)
    → h < 2 ^ 16
    → h / 1024 % 32 ≢ 0
    → half_to_float h
      ≡ h / 2 ^ 15 * 2 ^ 31
        + (if h / 1024 % 32 == 31 then 255 else h / 1024 % 32 + 112) * 2 ^ 23
        + h % 1024 * 8192
half_to_float-normal h small n =
    let top : offset_of (h / 2 ^ 10) ≡ 1024 = ground (arith, n) in
    half_to_float_lem h small
    ∙ rw (top, upper_mantissa (h % 2 ^ 10) (omega arith))
        (settle (h / 2 ^ 10) (h % 2 ^ 10) (h / 2 ^ 15) (omega arith) (omega arith) (omega arith))
  where
    settle :
        (i m s : ℕ)
        → i < 64
        → m < 1024
        → s ≡ i / 32
        → (112 * 2 ^ 23 + m * 8192 + exponent_of i) % 2 ^ 32
          ≡ s * 2 ^ 31 + (if i % 32 == 31 then 255 else i % 32 + 112) * 2 ^ 23 + m * 8192
    settle i m s hi hm e = ground arith

-- A half without it.
pub half_to_float-small :
    (h : ℕ)
    → h < 2 ^ 16
    → h / 1024 % 32 ≡ 0
    → half_to_float h ≡ get_or mantissa_table (h % 1024) 0 + h / 2 ^ 15 * 2 ^ 31
half_to_float-small h small n =
    let low : offset_of (h / 2 ^ 10) ≡ 0 = ground (arith, n) in
    half_to_float_lem h small
    ∙ rw (low, zero-add)
        (settle (get_or mantissa_table (h % 1024) 0) (h / 2 ^ 10) (h / 2 ^ 15)
          ((lower_mantissa (h % 1024) (omega arith)).0) (omega arith) n (omega arith))
  where
    settle :
        (v i s : ℕ)
        → v < 2 ^ 31
        → i < 64
        → i % 32 ≡ 0
        → s ≡ i / 32
        → (v + exponent_of i) % 2 ^ 32 ≡ v + s * 2 ^ 31
    settle v i s small hi low e = ground arith
