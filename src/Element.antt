-- ===== src/Element.antt =====
-- The elements that the reader of src/ujo_reader.c hands out, and the functions that read them.
pub mod Kinds
use libujo_c.Base.{ℕ, List, Option, none, some, ◌==◌, if◌then◌else◌}
use libujo_c.Base.Result.{Result, ok, err, fault}
use libujo_c.Types.{
  DateTime, err_invalid_data, type_int64, type_int32, type_int16, type_int8, type_uint64,
  type_uint32, type_uint16, type_uint8, type_float64, type_float32, type_float16, type_bool,
  type_ux_time, type_date, type_time, type_timestamp, type_string, type_bin, sub_string_c,
  sub_string_u8, sub_string_u16, sub_string_u32,
}
use libujo_c.Half.{half_to_float}

-- The member of the union that was stored: an integer or a float as its bit pattern, a string with
-- its subtype, its units and their number, binary data with its type, its octets and their number.
pub data Value : Type 0 where
  no_value : Value
  int8_val int16_val int32_val int64_val : ℕ → Value
  uint8_val uint16_val uint32_val uint64_val : ℕ → Value
  float16_val float32_val float64_val : ℕ → Value
  bool_val uxtime_val : ℕ → Value
  datetime_val : DateTime → Value
  string_val : ℕ → List ℕ → ℕ → Value
  binary_val : ℕ → List ℕ → ℕ → Value

-- `struct _ujo_element`
pub record Element : Type 0 where
  pub type : ℕ
  pub value : Value

-- What a getter gives: the value, or an error code. `fault` is a read of a member that was not
-- stored, which the type id excludes for the elements of the reader.
abbrev pub Got : Type 0 → Type 0
Got A = Result (Unit {0}) A

-- The checks that each getter makes on the handle and on the type of the element.
abbrev of_type : {A : Type 0} → ℕ → (Value → Got A) → Option Element → Got A
of_type t read none = err err_invalid_data tt
of_type t read (some e) = if e.type == t then read e.value else err err_invalid_data tt

read_int8 : Value → Got ℕ
read_int8 (int8_val v) = ok v tt
read_int8 _ = fault

unfoldable pub get_int8 : Option Element → Got ℕ
unfolding read_int8
get_int8 = of_type type_int8 read_int8

read_int16 : Value → Got ℕ
read_int16 (int16_val v) = ok v tt
read_int16 _ = fault

unfoldable pub get_int16 : Option Element → Got ℕ
unfolding read_int16
get_int16 = of_type type_int16 read_int16

read_int32 : Value → Got ℕ
read_int32 (int32_val v) = ok v tt
read_int32 _ = fault

unfoldable pub get_int32 : Option Element → Got ℕ
unfolding read_int32
get_int32 = of_type type_int32 read_int32

read_int64 : Value → Got ℕ
read_int64 (int64_val v) = ok v tt
read_int64 _ = fault

unfoldable pub get_int64 : Option Element → Got ℕ
unfolding read_int64
get_int64 = of_type type_int64 read_int64

read_uint8 : Value → Got ℕ
read_uint8 (uint8_val v) = ok v tt
read_uint8 _ = fault

unfoldable pub get_uint8 : Option Element → Got ℕ
unfolding read_uint8
get_uint8 = of_type type_uint8 read_uint8

read_uint16 : Value → Got ℕ
read_uint16 (uint16_val v) = ok v tt
read_uint16 _ = fault

unfoldable pub get_uint16 : Option Element → Got ℕ
unfolding read_uint16
get_uint16 = of_type type_uint16 read_uint16

read_uint32 : Value → Got ℕ
read_uint32 (uint32_val v) = ok v tt
read_uint32 _ = fault

unfoldable pub get_uint32 : Option Element → Got ℕ
unfolding read_uint32
get_uint32 = of_type type_uint32 read_uint32

read_uint64 : Value → Got ℕ
read_uint64 (uint64_val v) = ok v tt
read_uint64 _ = fault

unfoldable pub get_uint64 : Option Element → Got ℕ
unfolding read_uint64
get_uint64 = of_type type_uint64 read_uint64

read_float32 : Value → Got ℕ
read_float32 (float32_val v) = ok v tt
read_float32 _ = fault

unfoldable pub get_float32 : Option Element → Got ℕ
unfolding read_float32
get_float32 = of_type type_float32 read_float32

read_float64 : Value → Got ℕ
read_float64 (float64_val v) = ok v tt
read_float64 _ = fault

unfoldable pub get_float64 : Option Element → Got ℕ
unfolding read_float64
get_float64 = of_type type_float64 read_float64

read_bool : Value → Got ℕ
read_bool (bool_val v) = ok v tt
read_bool _ = fault

unfoldable pub get_bool : Option Element → Got ℕ
unfolding read_bool
get_bool = of_type type_bool read_bool

read_uxtime : Value → Got ℕ
read_uxtime (uxtime_val v) = ok v tt
read_uxtime _ = fault

unfoldable pub get_uxtime : Option Element → Got ℕ
unfolding read_uxtime
get_uxtime = of_type type_ux_time read_uxtime

-- The half is widened.
read_float16 : Value → Got ℕ
read_float16 (float16_val v) = ok (half_to_float v) tt
read_float16 _ = fault

unfoldable pub get_float16 : Option Element → Got ℕ
unfolding read_float16
get_float16 = of_type type_float16 read_float16

read_datetime : Value → Got DateTime
read_datetime (datetime_val v) = ok v tt
read_datetime _ = fault

unfoldable pub get_date : Option Element → Got DateTime
unfolding read_datetime
get_date = of_type type_date read_datetime

unfoldable pub get_time : Option Element → Got DateTime
unfolding read_datetime
get_time = of_type type_time read_datetime

unfoldable pub get_timestamp : Option Element → Got DateTime
unfolding read_datetime
get_timestamp = of_type type_timestamp read_datetime

unfoldable pub get_type : Option Element → Got ℕ
get_type none = err err_invalid_data tt
get_type (some e) = ok e.type tt

-- The units and their number, if the subtype is the one asked for.
read_string : ℕ → Value → Got (List ℕ × ℕ)
read_string sub (string_val t s n) = if t == sub then ok (s, n) tt else err err_invalid_data tt
read_string sub _ = fault

unfoldable pub get_string_c : Option Element → Got (List ℕ × ℕ)
unfolding read_string
get_string_c = of_type type_string (read_string sub_string_c)

unfoldable pub get_string_u8 : Option Element → Got (List ℕ × ℕ)
unfolding read_string
get_string_u8 = of_type type_string (read_string sub_string_u8)

unfoldable pub get_string_u16 : Option Element → Got (List ℕ × ℕ)
unfolding read_string
get_string_u16 = of_type type_string (read_string sub_string_u16)

unfoldable pub get_string_u32 : Option Element → Got (List ℕ × ℕ)
unfolding read_string
get_string_u32 = of_type type_string (read_string sub_string_u32)

read_string_type : Value → Got ℕ
read_string_type (string_val t s n) = ok t tt
read_string_type _ = fault

unfoldable pub get_string_type : Option Element → Got ℕ
unfolding read_string_type
get_string_type = of_type type_string read_string_type

read_binary : Value → Got (ℕ × List ℕ × ℕ)
read_binary (binary_val t d n) = ok (t, d, n) tt
read_binary _ = fault

unfoldable pub get_binary : Option Element → Got (ℕ × List ℕ × ℕ)
unfolding read_binary
get_binary = of_type type_bin read_binary
