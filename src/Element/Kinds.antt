-- ===== src/Element/Kinds.antt =====
-- Which member of the union an element of a type has, and what the getters of src/ujo_reader.c do with
-- it.
use mathlib.Core.Path.{subst}
use libujo_c.Base.{
  ℕ, ◌≡◌, refl, Bool, true, false, ◌&&◌, ◌||◌, ◌⊎◌, inl, inr, List, some, ◌==◌, if◌then◌else◌,
  arith,
}
use libujo_c.Base.Result.{ok, err, fault, out_of_fuel}
use libujo_c.Types.{
  err_invalid_data, sub_string_c, sub_string_u8, sub_string_u16, sub_string_u32, terminator,
  type_bin, type_bool, type_date, type_float16, type_float32, type_float64, type_int16, type_int32,
  type_int64, type_int8, type_list, type_map, type_none, type_string, type_table, type_time,
  type_timestamp, type_uint16, type_uint32, type_uint64, type_uint8, type_ux_time,
}
use libujo_c.Element.{
  Element, Value, Got, no_value, int8_val, int16_val, int32_val, int64_val, uint8_val, uint16_val,
  uint32_val, uint64_val, float16_val, float32_val, float64_val, bool_val, uxtime_val, datetime_val,
  string_val, binary_val, get_int8, get_int16, get_int32, get_int64, get_uint8, get_uint16,
  get_uint32, get_uint64, get_float32, get_float64, get_bool, get_uxtime, get_float16, get_date,
  get_time, get_timestamp, get_string_c, get_string_u8, get_string_u16, get_string_u32,
  get_string_type, get_binary, read_int8, read_int16, read_int32, read_int64, read_uint8,
  read_uint16, read_uint32, read_uint64, read_float32, read_float64, read_bool, read_uxtime,
  read_float16, read_datetime, read_string, read_string_type, read_binary,
}

-- Whether elements of the type have the member.
unfoldable pub has_kind : ℕ → Value → Bool
has_kind t no_value =
    t == type_list || (t == type_map || (t == type_table || (t == terminator || t == type_none)))
has_kind t (int64_val v) = t == type_int64
has_kind t (int32_val v) = t == type_int32
has_kind t (int16_val v) = t == type_int16
has_kind t (int8_val v) = t == type_int8
has_kind t (uint64_val v) = t == type_uint64
has_kind t (uint32_val v) = t == type_uint32
has_kind t (uint16_val v) = t == type_uint16
has_kind t (uint8_val v) = t == type_uint8
has_kind t (float16_val v) = t == type_float16
has_kind t (float32_val v) = t == type_float32
has_kind t (float64_val v) = t == type_float64
has_kind t (bool_val v) = t == type_bool
has_kind t (uxtime_val v) = t == type_ux_time
has_kind t (datetime_val v) = t == type_date || (t == type_time || t == type_timestamp)
has_kind t (string_val sub s n) = t == type_string
has_kind t (binary_val sub s n) = t == type_bin

-- A getter that gives a value or an error code.
abbrev pub works : {A : Type 0} → Got A → Bool
works (ok a u) = true
works (err code u) = true
works fault = false
works out_of_fuel = false

-- All getters, on one element.
unfoldable pub getters_work : Element → Bool
getters_work e =
    works (get_int8 (some e))
    && (works (get_int16 (some e))
        && (works (get_int32 (some e))
            && (works (get_int64 (some e))
                && (works (get_uint8 (some e))
                    && (works (get_uint16 (some e))
                        && (works (get_uint32 (some e))
                            && (works (get_uint64 (some e))
                                && (works (get_float32 (some e))
                                    && (works (get_float64 (some e))
                                        && (works (get_bool (some e))
                                            && (works (get_uxtime (some e))
                                                && (works (get_float16 (some e))
                                                    && (works (get_date (some e))
                                                        && (works (get_time (some e))
                                                            && (works (get_timestamp (some e))
                                                            && (works (get_string_c (some e))
                                                            && (works (get_string_u8 (some e))
                                                            && (works (get_string_u16 (some e))
                                                            && (works (get_string_u32 (some e))
                                                            && (works (get_string_type (some e))
                                                            && (works (
                                                            get_binary
                                                            (some e)))))))))))))))))))))))

pub equal_if : (a b : ℕ) → a == b ≡ true → b ≡ a
equal_if a b h = ground arith

one_of : (b c : Bool) → b || c ≡ true → (b ≡ true) ⊎ (c ≡ true)
one_of true c h = inl refl
one_of false c h = inr h

works-if :
    {A : Type 0} (b : Bool) (a : A)
    → works {A = A} (if b then ok a tt else err err_invalid_data tt) ≡ true
works-if true a = refl
works-if false a = refl

abbrev Works : Value → ℕ → Type 0
Works v t = getters_work (record { type = t; value = v }) ≡ true

by_type : (v : Value) (t k : ℕ) → Works v k → t == k ≡ true → Works v t
by_type v t k h e = subst (Works v) (equal_if t k e) h

Works-on : (v : Value) (t : ℕ) → has_kind t v ≡ true → Works v t
unfolding has_kind getters_work get_int8 get_int16 get_int32 get_int64 get_uint8 get_uint16
    get_uint32 get_uint64 get_float32 get_float64 get_bool get_uxtime get_float16 get_date get_time
    get_timestamp get_string_c get_string_u8 get_string_u16 get_string_u32 get_string_type
    get_binary read_int8 read_int16 read_int32 read_int64 read_uint8 read_uint16 read_uint32
    read_uint64 read_float32 read_float64 read_bool read_uxtime read_float16 read_datetime
    read_string read_string_type read_binary
Works-on (int64_val v) t h = by_type (int64_val v) t type_int64 refl h
Works-on (int32_val v) t h = by_type (int32_val v) t type_int32 refl h
Works-on (int16_val v) t h = by_type (int16_val v) t type_int16 refl h
Works-on (int8_val v) t h = by_type (int8_val v) t type_int8 refl h
Works-on (uint64_val v) t h = by_type (uint64_val v) t type_uint64 refl h
Works-on (uint32_val v) t h = by_type (uint32_val v) t type_uint32 refl h
Works-on (uint16_val v) t h = by_type (uint16_val v) t type_uint16 refl h
Works-on (uint8_val v) t h = by_type (uint8_val v) t type_uint8 refl h
Works-on (float16_val v) t h = by_type (float16_val v) t type_float16 refl h
Works-on (float32_val v) t h = by_type (float32_val v) t type_float32 refl h
Works-on (float64_val v) t h = by_type (float64_val v) t type_float64 refl h
Works-on (bool_val v) t h = by_type (bool_val v) t type_bool refl h
Works-on (uxtime_val v) t h = by_type (uxtime_val v) t type_ux_time refl h
Works-on (datetime_val v) t h = elim (one_of (t == type_date) _ h) [
  | inl e0 ↦ by_type (datetime_val v) t type_date refl e0
  | inr f0 ↦ elim (one_of (t == type_time) _ f0) [
    | inl e1 ↦ by_type (datetime_val v) t type_time refl e1
    | inr f1 ↦ by_type (datetime_val v) t type_timestamp refl f1
  ]
]
Works-on no_value t h = elim (one_of (t == type_list) _ h) [
  | inl e0 ↦ by_type (no_value) t type_list refl e0
  | inr f0 ↦ elim (one_of (t == type_map) _ f0) [
    | inl e1 ↦ by_type (no_value) t type_map refl e1
    | inr f1 ↦ elim (one_of (t == type_table) _ f1) [
      | inl e2 ↦ by_type (no_value) t type_table refl e2
      | inr f2 ↦ elim (one_of (t == terminator) _ f2) [
        | inl e3 ↦ by_type (no_value) t terminator refl e3
        | inr f3 ↦ by_type (no_value) t type_none refl f3
      ]
    ]
  ]
]
Works-on (binary_val sub s n) t h = by_type (binary_val sub s n) t type_bin refl h
Works-on (string_val sub s n) t h =
    let units : List ℕ × ℕ = (s, n) in
    by_type (string_val sub s n) t type_string
      (rw
        (
          works-if (sub == sub_string_c) units,
          works-if (sub == sub_string_u8) units,
          works-if (sub == sub_string_u16) units,
          works-if (sub == sub_string_u32) units,
        )
        refl)
      h

-- An element with the member that its type says.
pub has_kind-getters_work : (e : Element) → has_kind e.type e.value ≡ true → getters_work e ≡ true
has_kind-getters_work e h = Works-on e.value e.type h
